-- ===== src/Split/Iterator.antt =====
-- transport/split/writer.go: SplitIterator and its two constructors. An iterator is a Go closure;
-- here it is its captured state with the function that a call runs.
pub mod Lengths
use bfx_outline_sdk.Prelude.{
  ℕ, zero, suc, ◌+◌, ◌≡◌, refl, ◌<◌, List, [], ◌∷◌, ◌++◌, ◌&&◌, if◌then◌else◌, arith, replicate,
  Bool-cases, inl, inr, true, false,
}
use bfx_outline_sdk.Prelude.Int.{ℤ, pos, negsuc, ltb_ℤ, ◌-ℤ◌, is_zero}

pub record SplitIterator : Type 1 where
  pub State : Type 0
  pub next : State → State × ℤ

abbrev pub fixed_split : SplitIterator
fixed_split = record { State = ℤ; next = λ n. (pos 0, n) }

pub record RepeatedSplit : Type 0 where
  pub count : ℤ
  pub bytes : ℤ

-- The loop that removes no-op splits.
unfoldable pub clean_splits : List RepeatedSplit → List RepeatedSplit
clean_splits [] = []
clean_splits (split ∷ splits) =
    let rest = clean_splits splits in
    if ltb_ℤ (pos 0) split.count && ltb_ℤ (pos 0) split.bytes then split ∷ rest else rest

-- One call of the closure that NewRepeatedSplitIterator returns.
unfoldable pub repeated_next : List RepeatedSplit → List RepeatedSplit × ℤ
repeated_next [] = ([], pos 0)
repeated_next (split ∷ rest) =
    let left = split.count -ℤ pos 1 in
    (if is_zero left then rest else record split { count = left } ∷ rest, split.bytes)

abbrev pub repeated_split : SplitIterator
repeated_split = record { State = List RepeatedSplit; next = repeated_next }

-- From `state` on the calls return the lengths `ls`, each positive, and then zero.
abbrev pub Yields : (it : SplitIterator) → it.State → List ℕ → Type 0
Yields it s [] = (it.next s).1 ≡ pos 0
Yields it s (l ∷ ls) = ((it.next s).1 ≡ pos l) × (0 < l) × Yields it (it.next s).0 ls

-- `count` times `bytes`, where both are positive.
abbrev pub repeat_positive : ℤ → ℤ → List ℕ
repeat_positive (pos n) (pos zero) = []
repeat_positive (pos n) (pos (suc b)) = replicate n (suc b)
repeat_positive _ _ = []

-- The lengths that a list of splits stands for.
unfoldable pub expand : List RepeatedSplit → List ℕ
expand [] = []
expand (split ∷ splits) = repeat_positive split.count split.bytes ++ expand splits
