-- ===== src/Tests/Split.antt =====
-- Tests and instances for Split.
use bfx_outline_sdk.Prelude.{
  inr, ℕ, ◌≡◌, refl, Option, none, some, List, [], ◌∷◌, ◌++◌, length, arith,
}
use bfx_outline_sdk.Prelude.Int.{ℤ, pos, negsuc}
use bfx_outline_sdk.Io.{Bytes, Fault, Wire, perfect, send}
use bfx_outline_sdk.Split.Iterator.{
  fixed_split, RepeatedSplit, repeated_split, clean_splits, repeated_next,
}
use bfx_outline_sdk.Split.Dialer.{dial, write_shared, second_dial-cut_at}
use bfx_outline_sdk.Split.Writer.{
  SplitWriter, new_writer, write, write_loop, write_part, advance, Pending,
}
use bfx_outline_sdk.Split.Writer.Advance.{after}
use bfx_outline_sdk.Split.Writer.Stream.{Wrote, write-Wrote}
use bfx_outline_sdk.Split.Writer.Pieces.{cut_at, write-cut_at}

-- Twice 2 bytes, a no-op, and once 3.
abbrev splits : List RepeatedSplit
splits =
    record { count = pos 2; bytes = pos 2 }
    ∷ record { count = negsuc 0; bytes = pos 5 }
    ∷ record { count = pos 1; bytes = pos 3 }
    ∷ []

abbrev fresh : Wire perfect
fresh = record { state = tt; sent = [] }

abbrev splitter : SplitWriter perfect repeated_split
splitter = record {
  writer = fresh;
  next_split_bytes = pos 2;
  segments = record { count = pos 1; bytes = pos 2 } ∷ record { count = pos 1; bytes = pos 3 } ∷ [];
}

new_writer_runs : new_writer perfect repeated_split fresh (clean_splits splits) ≡ splitter
unfolding new_writer clean_splits repeated_next
new_writer_runs = refl

abbrev nine : Bytes
nine = 1 ∷ 2 ∷ 3 ∷ 4 ∷ 5 ∷ 6 ∷ 7 ∷ 8 ∷ 9 ∷ []

sent_of : Option (SplitWriter perfect repeated_split × ℕ × Fault) → List Bytes
sent_of none = []
sent_of (some (sw, _, _)) = sw.writer.sent

write_runs :
    sent_of (write perfect repeated_split splitter nine)
    ≡ (1 ∷ 2 ∷ []) ∷ (3 ∷ 4 ∷ []) ∷ (5 ∷ 6 ∷ 7 ∷ []) ∷ (8 ∷ 9 ∷ []) ∷ []
unfolding sent_of write write_loop write_part advance send repeated_next
write_runs = refl

splitter-Pending : Pending splitter (2 ∷ 2 ∷ 3 ∷ [])
unfolding repeated_next
splitter-Pending = (refl, omega arith, (refl, omega arith, (refl, omega arith, refl)))

write-Wrote_example :
    (sw' : SplitWriter perfect repeated_split) × (n : ℕ) × (err : Fault) × (write perfect
        repeated_split splitter nine
      ≡ some (sw', n, err))
    × Wrote perfect repeated_split splitter nine (2 ∷ 2 ∷ 3 ∷ []) sw' n err
write-Wrote_example =
    write-Wrote perfect repeated_split splitter nine (2 ∷ 2 ∷ 3 ∷ []) splitter-Pending

write-cut_at_example :
    (sw' : SplitWriter perfect repeated_split) × (write perfect repeated_split splitter nine
      ≡ some (sw', length nine, none))
    × (sw'.writer.sent ≡ [] ++ cut_at (2 ∷ 2 ∷ 3 ∷ []) nine)
    × Pending sw' (after (2 ∷ 2 ∷ 3 ∷ []) (length nine))
write-cut_at_example = write-cut_at repeated_split splitter nine (2 ∷ 2 ∷ 3 ∷ []) splitter-Pending

-- With one length, the second connection is not split.
second_dial-cut_at_example :
    (sw1 : SplitWriter perfect fixed_split) × (sw2 : SplitWriter perfect fixed_split)
    × (sw' : SplitWriter perfect fixed_split) × (s1 : ℤ) × (s2 : ℤ) × (s' : ℤ) × (dial perfect
          fixed_split
          (pos 2)
          (inr fresh)
        ≡ (s1, inr sw1))
    × Pending sw1 (2 ∷ [])
    × (dial perfect fixed_split s1 (inr fresh) ≡ (s2, inr sw2))
    × (write_shared perfect fixed_split s2 sw2 nine ≡ some (s', sw', 9, none))
    × (sw'.writer.sent ≡ [] ++ cut_at [] nine)
second_dial-cut_at_example =
    second_dial-cut_at fixed_split (pos 2) 2 [] fresh fresh nine (refl, omega arith, refl)
