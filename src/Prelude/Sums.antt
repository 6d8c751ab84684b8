-- ===== src/Prelude/Sums.antt =====
-- Sums of a weight over a list.
use Prim.Native.Nat.{ℕ, zero, suc, ◌+◌}
use mathlib.Core.Path.{◌≡◌, refl}
use mathlib.Core.Bool.{Bool, true, false}
use mathlib.Core.List.{List, [], ◌∷◌, ◌++◌}
use native.Mathlib.Omega.{arith}
use bfx_outline_sdk.Prelude.Lists.{length, replicate}

abbrev pub bit : Bool → ℕ
bit false = 0
bit true = 1

module _ {ℓ} {A : Type ℓ} where
  abbrev pub total : (A → ℕ) → List A → ℕ
  total f [] = 0
  total f (a ∷ xs) = f a + total f xs

  pub total-append : (f : A → ℕ) (xs ys : List A) → total f (xs ++ ys) ≡ total f xs + total f ys
  total-append f [] ys = omega arith
  total-append f (x ∷ xs) ys = omega (arith, total-append f xs ys)

  pub total-split :
      (f : A → ℕ) (before after : List A) (p : A)
      → total f (before ++ p ∷ after) ≡ f p + (total f before + total f after)
  total-split f before after p = omega (arith, total-append f before (p ∷ after))

  pub total-length : (xs : List A) → total (λ _. 1) xs ≡ length xs
  total-length [] = refl
  total-length (x ∷ xs) = omega (arith, total-length xs)

  pub total-none : (n : ℕ) (f : A → ℕ) (p : A) → f p ≡ 0 → total f (replicate n p) ≡ 0
  total-none zero f p e = refl
  total-none (suc n) f p e = omega (arith, e, total-none n f p e)

  pub total-all : (n : ℕ) (f : A → ℕ) (p : A) → f p ≡ 1 → total f (replicate n p) ≡ n
  total-all zero f p e = refl
  total-all (suc n) f p e = omega (arith, e, total-all n f p e)
