-- ===== src/Smart/Strategy/Promotes.antt =====
-- promoteProxylessToFront of x/smart/strategy_result.go.
use bfx_outline_sdk.Prelude.{
  ℕ, ◌≡◌, String, Bool, true, false, Option, none, some, List, [], ◌∷◌, ◌++◌, if◌then◌else◌, All,
  length, ◌⊎◌, inl, inr, ap, ◌∙◌, Bool-cases, refl, sym, subst,
}
use bfx_outline_sdk.Smart.Cache.{move_to_front}
use bfx_outline_sdk.Smart.Front.{move_to_front-split}
use bfx_outline_sdk.Smart.Strategy.{
  Config, index_of, one_later, to_front, promote, promote_to_front,
}
use text.Mathlib.Text.{◌==◌}

-- The first entry of `xs` that passes a test is moved to the front, if there is one.
abbrev pub Promoted : {A : Type 0} → (A → Bool) → List A → List A → Type 0
Promoted {A} p xs ys =
    (All (λ e. p e ≡ false) xs × (ys ≡ xs))
    ⊎ ((before : List A) × (e : A) × (after : List A) × (xs ≡ before ++ e ∷ after)
        × All (λ x. p x ≡ false) before
        × (p e ≡ true)
        × (ys ≡ e ∷ (before ++ after)))

module _ {A : Type 0} (p : A → Bool) where
  -- Where the search for an index stops.
  abbrev Stops : List A → Option ℕ → Type 0
  Stops xs i =
      (All (λ e. p e ≡ false) xs × (i ≡ none))
      ⊎ ((before : List A) × (e : A) × (after : List A) × (xs ≡ before ++ e ∷ after)
          × All (λ x. p x ≡ false) before
          × (p e ≡ true)
          × (i ≡ some (length before)))

  Stops-later :
      (x : A) (xs : List A) (i : Option ℕ) → p x ≡ false → Stops xs i → Stops (x ∷ xs) (one_later i)
  Stops-later x xs i f (inl (a, e)) = inl ((f, a), ap one_later e)
  Stops-later x xs i f (inr (before, y, after, s, a, t, e)) =
      inr (x ∷ before, y, after, ap (◌∷◌ x) s, (f, a), t, ap one_later e)

  index_of-Stops : (xs : List A) → Stops xs (index_of p xs)
  index_of-Stops [] = inl (tt, refl)
  index_of-Stops (x ∷ xs) =
      let branch : Bool → Option ℕ = λ b. if b then some 0 else one_later (index_of p xs) in
      elim (Bool-cases (p x)) [
        | inl t ↦ inr ([], x, xs, refl, tt, t, ap branch t)
        | inr f ↦
            subst (Stops (x ∷ xs)) (sym (ap branch f))
              (Stops-later x xs (index_of p xs) f (index_of-Stops xs))
      ]

  to_front-Promoted : (xs : List A) (i : Option ℕ) → Stops xs i → Promoted p xs (to_front i xs)
  to_front-Promoted xs i (inl (a, e)) = inl (a, ap (λ j. to_front j xs) e)
  to_front-Promoted xs i (inr (before, y, after, s, a, t, e)) = inr (
    before,
    y,
    after,
    s,
    a,
    t,
    ap (λ j. to_front j xs) e
        ∙ ap (λ zs. move_to_front zs (length before)) s
        ∙ move_to_front-split before y after,
  )

pub promote-Promoted :
    {A : Type 0} (same : A → A → Bool) (w : A) (xs : List A)
    → Promoted (λ e. same e w) xs (promote same (w ∷ []) xs)
promote-Promoted same w xs =
    to_front-Promoted (λ e. same e w) xs (index_of (λ e. same e w) xs)
      (index_of-Stops (λ e. same e w) xs)

-- For a winner with one DNS entry and one TLS entry, promoteProxylessToFront moves the first entry that
-- equals the winner's to the front of each list and keeps the order of the others; a list without such
-- an entry, and the fallbacks, stay as they are.
pub promote_to_front-Promotes :
    {D F : Type 0} (same_dns : D → D → Bool) (same_fallback : F → F → Bool) (w cfg : Config D F)
    (d : D) (t : String)
    → w.dns ≡ d ∷ []
    → w.tls ≡ t ∷ []
    → let out = promote_to_front same_dns same_fallback w cfg in
      Promoted (λ e. same_dns e d) cfg.dns out.dns
      × Promoted (λ e. e == t) cfg.tls out.tls
      × (out.fallback ≡ cfg.fallback)
unfolding promote_to_front
promote_to_front-Promotes same_dns same_fallback w cfg d t p q = (
  subst (λ ws. Promoted (λ e. same_dns e d) cfg.dns (promote same_dns ws cfg.dns)) (sym p)
      (promote-Promoted same_dns d cfg.dns),
  subst (λ ws. Promoted (λ e. e == t) cfg.tls (promote (λ a b. a == b) ws cfg.tls)) (sym q)
      (promote-Promoted (λ a b. a == b) t cfg.tls),
  refl,
)
