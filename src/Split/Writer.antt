-- ===== src/Split/Writer.antt =====
-- transport/split/writer.go: splitWriter. The fields `writer` and `nextSegmentLength` are the
-- wrapped writer with its log and the iterator's state.
pub mod Advance
pub mod Stream
pub mod Pieces
use bfx_outline_sdk.Prelude.{
  ℕ, zero, suc, ◌+◌, ◌≡◌, ◌<◌, List, [], ◌∷◌, Option, none, some, ◌&&◌, if◌then◌else◌, length, take,
  drop,
}
use bfx_outline_sdk.Prelude.Int.{ℤ, pos, pos_part, ltb_ℤ, ◌-ℤ◌, is_zero}
use bfx_outline_sdk.Io.{Bytes, Fault, Writer, Wire, send}
use bfx_outline_sdk.Split.Iterator.{SplitIterator, Yields}

pub record SplitWriter (w : Writer) (it : SplitIterator) : Type 0 where
  pub writer : Wire w
  pub next_split_bytes : ℤ
  pub segments : it.State

module _ (w : Writer) (it : SplitIterator) where
  -- NewWriter asks for the first length at once.
  unfoldable pub new_writer : Wire w → it.State → SplitWriter w it
  new_writer c s =
      let (s', next) = it.next s in record { writer = c; next_split_bytes = next; segments = s' }

  unfoldable pub advance : SplitWriter w it → ℕ → SplitWriter w it
  advance sw n =
      let left = sw.next_split_bytes -ℤ pos n in
      let (s, next) = it.next sw.segments in
      if is_zero sw.next_split_bytes
      then sw
      else if ltb_ℤ (pos 0) left
      then record sw { next_split_bytes = left }
      else record sw { next_split_bytes = next; segments = s }

  -- One call of Write on the wrapped writer, and the advance by what it accepted.
  unfoldable pub write_part : SplitWriter w it → Bytes → SplitWriter w it × ℕ × Fault
  write_part sw part =
      let (c, n, err) = send w sw.writer part in (advance (record sw { writer = c }) n, n, err)

  -- The loop of Write, on fuel; `none` means that the fuel ran out.
  unfoldable pub write_loop :
      ℕ → SplitWriter w it → Bytes → ℕ → Option (SplitWriter w it × ℕ × Fault)
  write_loop zero sw p written = none
  write_loop (suc fuel) sw p written =
      let (sw', n, err) = write_part sw (take (pos_part sw.next_split_bytes) p) in
      let early : Option (SplitWriter w it × ℕ × Fault) = elim err [
        | none ↦ write_loop fuel sw' (drop n p) (written + n)
        | some e ↦ some (sw', written + n, some e)
      ] in
      let (last, m, err') = write_part sw p in
      if ltb_ℤ (pos 0) sw.next_split_bytes && ltb_ℤ sw.next_split_bytes (pos (length p))
      then early
      else some (last, written + m, err')

  -- Each round of the loop leaves less of the slice, so its length bounds the rounds.
  unfoldable pub write : SplitWriter w it → Bytes → Option (SplitWriter w it × ℕ × Fault)
  write sw p = write_loop (suc (length p)) sw p 0

-- The writer has still to cut after each of the lengths `ls`, counted from where it stands.
abbrev pub Pending : {w : Writer} {it : SplitIterator} → SplitWriter w it → List ℕ → Type 0
Pending sw [] = sw.next_split_bytes ≡ pos 0
Pending {it} sw (l ∷ ls) = (sw.next_split_bytes ≡ pos l) × (0 < l) × Yields it sw.segments ls
