-- ===== src/Tests/Smart.antt =====
-- Tests and instances for Smart.
use bfx_outline_sdk.Prelude.{arith, ℕ, ◌≡◌, refl, String, List, [], ◌∷◌, some}
use bfx_outline_sdk.Smart.Cache.{
  CacheEntry, add_to_cache, search_cache, search, move_to_front, remove_expired,
}
use bfx_outline_sdk.Smart.Cache.Add.{Adds, add_to_cache-Adds}

abbrev cache : List (CacheEntry ℕ)
cache =
    record { key = "a."; msg = 1; expire = 100 }
    ∷ record { key = "b."; msg = 2; expire = 90 }
    ∷ record { key = "c."; msg = 3; expire = 80 }
    ∷ []

add_to_cache-Adds_example :
    (c : List (CacheEntry ℕ)) × (add_to_cache 3 120 cache "d." 4 ≡ some c) × Adds 3 cache "d." 4 c
add_to_cache-Adds_example = add_to_cache-Adds 3 120 cache "d." 4 (omega arith) (omega arith)

keys : List (CacheEntry ℕ) → List String
keys [] = []
keys (e ∷ r) = e.key ∷ keys r

search_cache_runs : keys (search_cache cache "b.").0 ≡ "b." ∷ "a." ∷ "c." ∷ []
unfolding keys search_cache search move_to_front
search_cache_runs = refl

remove_expired_runs : keys (remove_expired 85 cache) ≡ "a." ∷ "b." ∷ []
unfolding keys remove_expired
remove_expired_runs = refl
