-- ===== src/Smart/Cache.antt =====
-- x/smart/cache.go and slice_helper.go: the list of simpleLRUCacheResolver. A time is a number, a
-- message any value.
pub mod Lookup
pub mod Add
use bfx_outline_sdk.Prelude.{
  ◌-◌, drop, ◌+◌, take, leb, ◌&&◌, length, ltb, min, if◌then◌else◌, arith, ℕ, ◌≡◌, String, List, [],
  ◌∷◌, ◌++◌, Option, none, some, suc, zero,
}
use text.Mathlib.Text.{◌==◌}

pub record CacheEntry (Message : Type 0) : Type 0 where
  pub key : String
  pub msg : Message
  pub expire : ℕ

-- moveToFront of slice_helper.go.
unfoldable pub move_to_front {ℓ} : {A : Type ℓ} → List A → ℕ → List A
move_to_front s idx =
    if ltb 0 idx && ltb idx (length s)
    then take 1 (drop idx s) ++ take idx s ++ drop (suc idx) s
    else s

module _ {Message : Type 0} where
  -- RemoveExpired at the time `now`.
  unfoldable pub remove_expired : ℕ → List (CacheEntry Message) → List (CacheEntry Message)
  remove_expired now [] = []
  remove_expired now (entry ∷ r) =
      let rest = remove_expired now r in if ltb now entry.expire then entry ∷ rest else rest

  -- The index of the first entry with the key, and its message.
  unfoldable pub search : String → List (CacheEntry Message) → Option (ℕ × Message)
  search key [] = none
  search key (entry ∷ r) =
      let later : Option (ℕ × Message) = elim (search key r) [
        | none ↦ none
        | some x ↦ some (suc x.0, x.1)
      ] in
      if entry.key == key then some (0, entry.msg) else later

  unfoldable pub search_cache :
      List (CacheEntry Message) → String → List (CacheEntry Message) × Option Message
  search_cache cache key = elim (search key cache) [
    | none ↦ (cache, none)
    | some x ↦ (move_to_front cache x.0, some x.1)
  ]

  -- AddToCache at the time `now`; `size` is the capacity of the slice, and `none` the panic of an
  -- empty one.
  unfoldable pub add_to_cache :
      ℕ → ℕ → List (CacheEntry Message) → String → Message → Option (List (CacheEntry Message))
  add_to_cache size now cache key msg =
      let new_size = min (suc (length cache)) size in
      if leb new_size 0
      then none
      else some (record { key = key; msg = msg; expire = now + 60 } ∷ take (new_size - 1) cache)
