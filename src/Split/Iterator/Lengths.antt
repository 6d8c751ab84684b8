-- ===== src/Split/Iterator/Lengths.antt =====
-- The sequences of lengths that the two iterators give.
use bfx_outline_sdk.Prelude.{
  ℕ, zero, suc, ◌≡◌, refl, ◌<◌, List, [], ◌∷◌, ◌++◌, arith, replicate, ◌&&◌, true, false,
}
use bfx_outline_sdk.Prelude.Int.{ℤ, pos, negsuc, ◌-ℤ◌, ltb_ℤ}
use bfx_outline_sdk.Split.Iterator.{
  fixed_split, RepeatedSplit, clean_splits, repeated_next, repeated_split, Yields, repeat_positive,
  expand,
}

less_one : (n : ℕ) → pos (suc n) -ℤ pos 1 ≡ pos n
less_one n = ground arith

repeated_next-Yields :
    (n b : ℕ) (rest : List RepeatedSplit) (ls : List ℕ)
    → Yields repeated_split rest ls
    → Yields repeated_split
        (record { count = pos (suc n); bytes = pos (suc b) } ∷ rest)
        (replicate (suc n) (suc b) ++ ls)
unfolding repeated_next
repeated_next-Yields zero b rest ls h = (refl, omega arith, h)
repeated_next-Yields (suc n) b rest ls h =
    (refl, omega arith, rw (less_one (suc n)) (repeated_next-Yields n b rest ls h))

ltb_pos : (n : ℕ) → ltb_ℤ (pos 0) (pos (suc n)) ≡ true
ltb_pos n = ground arith

ltb_neg : (b : ℕ) → ltb_ℤ (pos 0) (negsuc b) ≡ false
ltb_neg b = ground arith

not_positive : (n : ℕ) (b : ℤ) → (ltb_ℤ (pos 0) (negsuc n) && ltb_ℤ (pos 0) b) ≡ false
not_positive n b = ground arith

clean_splits-cons :
    (count bytes : ℤ) (rest : List RepeatedSplit) (ls : List ℕ)
    → Yields repeated_split (clean_splits rest) ls
    → Yields repeated_split
        (clean_splits (record { count = count; bytes = bytes } ∷ rest))
        (repeat_positive count bytes ++ ls)
unfolding clean_splits
clean_splits-cons (pos zero) (pos zero) rest ls h = h
clean_splits-cons (pos (suc n)) (pos zero) rest ls h = rw (ltb_pos n) h
clean_splits-cons (pos zero) (pos (suc b)) rest ls h = h
clean_splits-cons (pos (suc n)) (pos (suc b)) rest ls h =
    rw (ltb_pos n, ltb_pos b) (repeated_next-Yields n b (clean_splits rest) ls h)
clean_splits-cons (pos zero) (negsuc b) rest ls h = h
clean_splits-cons (pos (suc n)) (negsuc b) rest ls h = rw (ltb_pos n, ltb_neg b) h
clean_splits-cons (negsuc n) bytes rest ls h = rw (not_positive n bytes) h

pub clean_splits-Yields :
    (splits : List RepeatedSplit) → Yields repeated_split (clean_splits splits) (expand splits)
unfolding expand
clean_splits-Yields [] = unfold repeated_next clean_splits in refl
clean_splits-Yields (split ∷ splits) =
    clean_splits-cons split.count split.bytes splits (expand splits) (clean_splits-Yields splits)

-- The iterator of NewFixedSplitIterator gives its length once.
pub fixed_split-Yields : (n : ℕ) → 0 < n → Yields fixed_split (pos n) (n ∷ [])
fixed_split-Yields n h = (refl, h, refl)
