-- ===== src/Smart/Front.antt =====
-- moveToFront of x/smart/slice_helper.go.
use bfx_outline_sdk.Prelude.{
  drop-append_right, drop, take-length-append, drop-length-append, lt→ltb, length-append, ◌+◌, ◌<◌,
  ap, ◌∙◌, length, arith, ◌≡◌, refl, List, [], ◌∷◌, ◌++◌, suc,
}
use bfx_outline_sdk.Smart.Cache.{move_to_front}

module _ {A : Type 0} where
  move_to_front-inner :
      (xs : List A) (y : A) (zs : List A)
      → 0 < length xs
      → move_to_front (xs ++ y ∷ zs) (length xs) ≡ y ∷ (xs ++ zs)
  unfolding move_to_front
  move_to_front-inner xs y zs h =
      let more : suc (length xs) ≡ length xs + 1 = omega arith in
      rw
        (
          lt→ltb 0 (length xs) h,
          lt→ltb (length xs) (length (xs ++ y ∷ zs)) (omega (arith, length-append xs (y ∷ zs))),
          drop-length-append xs (y ∷ zs),
          take-length-append xs (y ∷ zs),
          ap (λ n. drop n (xs ++ y ∷ zs)) more ∙ drop-append_right 1 xs (y ∷ zs),
        )
        refl

  pub move_to_front-split :
      (xs : List A) (y : A) (zs : List A)
      → move_to_front (xs ++ y ∷ zs) (length xs) ≡ y ∷ (xs ++ zs)
  unfolding move_to_front
  move_to_front-split [] y zs = refl
  move_to_front-split (x ∷ xs) y zs = move_to_front-inner (x ∷ xs) y zs (omega arith)
