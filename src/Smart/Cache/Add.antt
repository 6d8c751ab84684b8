-- ===== src/Smart/Cache/Add.antt =====
-- AddToCache of x/smart: what a full or a half-full cache holds afterwards.
use bfx_outline_sdk.Prelude.{
  ap, inr, sym, ◌∙◌, take_all, inl, ltb, Bool-cases, length-take, leb, ◌+◌, take, min, length,
  arith, ℕ, ◌≡◌, refl, String, List, ◌∷◌, some, suc, false, ◌<◌, ◌≤◌, ◌-◌,
}
use bfx_outline_sdk.Smart.Cache.{CacheEntry, add_to_cache}
use bfx_outline_sdk.Smart.Cache.Lookup.{lookup}
use text.Mathlib.Text.{◌==◌}
use text.Mathlib.TextEquality.{eq_iff}

module _ {Message : Type 0} where
  -- The cache `c` has room for `size` entries and holds `msg` under `key`; under another key it holds
  -- what the newest entries of the old cache hold.
  pub record Adds (size : ℕ) (cache : List (CacheEntry Message)) (key : String) (msg : Message)
      (c : List (CacheEntry Message)) : Type 0 where
    pub bound : length c ≤ size
    pub newest : lookup key c ≡ some msg
    pub others : (k : String) → (key == k) ≡ false → lookup k c ≡ lookup k (take (size - 1) cache)

  pub add_to_cache-Adds :
      (size now : ℕ) (cache : List (CacheEntry Message)) (key : String) (msg : Message)
      → 0 < size
      → length cache ≤ size
      → (c : List (CacheEntry Message)) × (add_to_cache size now cache key msg ≡ some c)
        × Adds size cache key msg c
  unfolding add_to_cache
  add_to_cache-Adds size now cache key msg h le =
      let new_size = min (suc (length cache)) size in
      let entry : CacheEntry Message = record { key = key; msg = msg; expire = now + 60 } in
      let kept : take (new_size - 1) cache ≡ take (size - 1) cache =
        elim (Bool-cases (ltb (length cache) size)) [
          | inl e ↦
              take_all (new_size - 1) cache (ground arith)
              ∙ sym (take_all (size - 1) cache (ground arith))
          | inr e ↦ ap (λ n. take n cache) (ground arith)
        ] in
      let test : leb new_size 0 ≡ false = ground arith in
      (
        entry ∷ take (new_size - 1) cache,
        rw test refl,
        record {
          bound = omega (arith, length-take (new_size - 1) cache);
          newest = rw ((eq_iff key key).1 refl) refl;
          others = λ k e. rw (e, kept) refl;
        },
      )
