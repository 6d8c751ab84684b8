-- ===== src/Smart/Cache/Lookup.antt =====
-- What the cache of x/smart holds for each key.
use bfx_outline_sdk.Prelude.{
  length-append, subst, ap₂, Option-cases, inr, sym, inl, ◌∙◌, Bool-cases, ap, length,
  if◌then◌else◌, arith, ℕ, ◌≡◌, refl, String, List, [], ◌∷◌, ◌++◌, Option, none, some, suc, Bool,
  true, false,
}
use bfx_outline_sdk.Smart.Front.{move_to_front-split}
use bfx_outline_sdk.Smart.Cache.{CacheEntry, move_to_front, search, search_cache}
use text.Mathlib.Text.{◌==◌}
use text.Mathlib.TextEquality.{eq_iff}

module _ {Message : Type 0} where
  -- The message of the first entry with the key.
  abbrev pub lookup : String → List (CacheEntry Message) → Option Message
  lookup key [] = none
  lookup key (entry ∷ r) = if entry.key == key then some entry.msg else lookup key r

  -- Where the search of a key stops.
  record Found (key : String) (cache : List (CacheEntry Message)) (x : ℕ × Message) : Type 0 where
    before : List (CacheEntry Message)
    entry : CacheEntry Message
    after : List (CacheEntry Message)
    splits : cache ≡ before ++ entry ∷ after
    index : x.0 ≡ length before
    message_of : x.1 ≡ entry.msg
    hit : (entry.key == key) ≡ true
    miss : lookup key before ≡ none

  Found-later :
      (key : String) (entry : CacheEntry Message) (r : List (CacheEntry Message))
      (x y : ℕ × Message)
      → (entry.key == key) ≡ false
      → x ≡ (suc y.0, y.1)
      → Found key r y
      → Found key (entry ∷ r) x
  Found-later key entry r x y h eq f = record {
    before = entry ∷ f.before;
    entry = f.entry;
    after = f.after;
    splits = ap (◌∷◌ entry) f.splits;
    index = ap (λ z. z.0) eq ∙ ap suc f.index ∙ omega arith;
    message_of = ap (λ z. z.1) eq ∙ f.message_of;
    hit = f.hit;
    miss = ap (λ b. if b then some entry.msg else lookup key f.before) h ∙ f.miss;
  }

  search-Found :
      (key : String) (cache : List (CacheEntry Message)) (x : ℕ × Message)
      → search key cache ≡ some x
      → Found key cache x
  unfolding search
  search-Found key [] x e = absurd (cc e)
  search-Found key (entry ∷ r) x e =
      let later : Option (ℕ × Message) = elim (search key r) [
        | none ↦ none
        | some y ↦ some (suc y.0, y.1)
      ] in
      let branch : Bool → Option (ℕ × Message) = λ b. if b then some (0, entry.msg) else later in
      elim (Bool-cases (entry.key == key)) [
        | inl h ↦
            let eq : x ≡ (0, entry.msg) = cc (e, ap branch h) in
            record {
              before = [];
              entry = entry;
              after = r;
              splits = refl;
              index = ap (λ y. y.0) eq;
              message_of = ap (λ y. y.1) eq;
              hit = h;
              miss = refl;
            }
        | inr h ↦ elim (Option-cases (search key r)) [
          | inl n ↦ absurd (cc (e, ap branch h, n))
          | inr (y, f) ↦
              Found-later key entry r x y h (cc (e, ap branch h, f)) (search-Found key r y f)
        ]
      ]

  search-lookup :
      (key : String) (cache : List (CacheEntry Message))
      → search key cache ≡ none
      → lookup key cache ≡ none
  unfolding search
  search-lookup key [] e = refl
  search-lookup key (entry ∷ r) e =
      let later : Option (ℕ × Message) = elim (search key r) [
        | none ↦ none
        | some y ↦ some (suc y.0, y.1)
      ] in
      let branch : Bool → Option (ℕ × Message) = λ b. if b then some (0, entry.msg) else later in
      elim (Bool-cases (entry.key == key)) [
        | inl h ↦ absurd (cc (e, ap branch h))
        | inr h ↦ elim (Option-cases (search key r)) [
          | inl n ↦ ap (λ b. if b then some entry.msg else lookup key r) h ∙ search-lookup key r n
          | inr (y, f) ↦ absurd (cc (e, ap branch h, f))
        ]
      ]

  or_else : Option Message → Option Message → Option Message
  or_else none b = b
  or_else (some a) b = some a

  lookup-append :
      (k : String) (xs ys : List (CacheEntry Message))
      → lookup k (xs ++ ys) ≡ or_else (lookup k xs) (lookup k ys)
  unfolding or_else
  lookup-append k [] ys = refl
  lookup-append k (x ∷ xs) ys = elim (Bool-cases (x.key == k)) [
    | inl h ↦ rw h refl
    | inr h ↦ rw h (lookup-append k xs ys)
  ]

  -- Moving the first entry of a key to the front changes no lookup.
  lookup-moved :
      (key k : String) (xs zs : List (CacheEntry Message)) (y : CacheEntry Message)
      → (y.key == key) ≡ true
      → lookup key xs ≡ none
      → lookup k (y ∷ (xs ++ zs)) ≡ lookup k (xs ++ y ∷ zs)
  unfolding or_else
  lookup-moved key k xs zs y hit miss = elim (Bool-cases (y.key == k)) [
    | inl h ↦
        let same : key ≡ k = sym ((eq_iff y.key key).0 hit) ∙ (eq_iff y.key k).0 h in
        rw (h, lookup-append k xs (y ∷ zs), subst (λ t. lookup t xs ≡ none) same miss, h) refl
    | inr h ↦ rw (lookup-append k xs zs, lookup-append k xs (y ∷ zs), h) refl
  ]

  -- What a call of SearchCache answers, and what it leaves in the cache.
  abbrev pub Searches :
      List (CacheEntry Message) → String → List (CacheEntry Message) × Option Message → Type 0
  Searches cache key (cache', answer) =
      (answer ≡ lookup key cache)
      × ((k : String) → lookup k cache' ≡ lookup k cache)
      × (length cache' ≡ length cache)

  search_hit :
      (cache : List (CacheEntry Message)) (key : String) (x : ℕ × Message)
      → Found key cache x
      → Searches cache key (move_to_front cache x.0, some x.1)
  search_hit cache key x f =
      let whole = f.before ++ f.entry ∷ f.after in
      let moved : move_to_front cache x.0 ≡ f.entry ∷ (f.before ++ f.after) =
        ap₂ move_to_front f.splits f.index ∙ move_to_front-split f.before f.entry f.after in
      let found : lookup key whole ≡ some f.entry.msg =
        sym (lookup-moved key key f.before f.after f.entry f.hit f.miss)
        ∙ ap (λ b. if b then some f.entry.msg else lookup key (f.before ++ f.after)) f.hit in
      (
        ap some f.message_of ∙ sym found ∙ ap (lookup key) (sym f.splits),
        λ k.
            ap (lookup k) moved
            ∙ lookup-moved key k f.before f.after f.entry f.hit f.miss
            ∙ ap (lookup k) (sym f.splits),
        omega (
          arith,
          ap length moved,
          ap length f.splits,
          length-append f.before f.after,
          length-append f.before (f.entry ∷ f.after),
        ),
      )

  -- SearchCache answers the first message of the key, and reorders without changing any answer.
  pub search_cache-Searches :
      (cache : List (CacheEntry Message)) (key : String)
      → Searches cache key (search_cache cache key)
  unfolding search_cache
  search_cache-Searches cache key =
      let branch : Option (ℕ × Message) → List (CacheEntry Message) × Option Message =
        λ o. elim o [ none ↦ (cache, none) | some x ↦ (move_to_front cache x.0, some x.1) ] in
      elim (Option-cases (search key cache)) [
        | inl e ↦
            subst (Searches cache key) (sym (ap branch e))
              (sym (search-lookup key cache e), λ k. refl, refl)
        | inr (x, e) ↦
            subst (Searches cache key) (sym (ap branch e))
              (search_hit cache key x (search-Found key cache x e))
      ]
