-- ===== src/Tests/Disorder.antt =====
-- Tests and instances for the writer that disorders packets.
use bfx_outline_sdk.Prelude.{ℕ, ◌≡◌, none, some, List, [], ◌∷◌, All, refl}
use bfx_outline_sdk.Prelude.Int.{pos}
use bfx_outline_sdk.Io.{Bytes, external}
use bfx_outline_sdk.Disorder.{DisorderWriter, Answers, new_writer, write, write_conn}
use bfx_outline_sdk.Disorder.Runs.{writes, pieces, writes-pieces, write-keeps_hop_limit}

abbrev works : Answers
works = record { get_err = none; set_err = none; n = 2; write_err = none; restore_err = none }

abbrev three : List (Answers × Bytes)
three = (works, 1 ∷ 2 ∷ []) ∷ (works, 3 ∷ 4 ∷ []) ∷ (works, 5 ∷ 6 ∷ []) ∷ []

second_disordered :
    (writes three (new_writer 64 (pos 1))).sent
    ≡ (64, 1 ∷ 2 ∷ []) ∷ (1, 3 ∷ 4 ∷ []) ∷ (64, 5 ∷ 6 ∷ []) ∷ []
unfolding write write_conn
second_disordered = refl

writes-pieces_example :
    ((writes three (new_writer 64 (pos 1))).sent ≡ pieces 64 (pos 1) 0 three)
    × ((writes three (new_writer 64 (pos 1))).hop_limit ≡ 64)
writes-pieces_example =
    writes-pieces 64 (pos 1) three
      ((refl, refl, refl), ((refl, refl, refl), ((refl, refl, refl), tt)))

abbrev not_restored : Answers
not_restored = record works { restore_err = some (external 0) }

-- The second Write is the one that is disordered.
abbrev at_second : DisorderWriter
at_second = record (new_writer 64 (pos 1)) {
  writes_to_disorder = pos 0;
  sent = (64, 3 ∷ 4 ∷ []) ∷ [];
}

at_second_runs : (write works (3 ∷ 4 ∷ []) (new_writer 64 (pos 1))).0 ≡ at_second
unfolding write write_conn
at_second_runs = refl

write-keeps_hop_limit_example :
    let x = write not_restored (1 ∷ 2 ∷ []) at_second in
    (x.1 ≡ 2)
    × (x.2 ≡ none)
    × ((writes three x.0).hop_limit ≡ 1)
    × ((later : List (ℕ × Bytes)) × ((writes three x.0).sent
          ≡ (64, 3 ∷ 4 ∷ []) ∷ (1, 1 ∷ 2 ∷ []) ∷ later)
        × All (λ x. x.0 ≡ 1) later)
write-keeps_hop_limit_example =
    write-keeps_hop_limit not_restored (1 ∷ 2 ∷ []) (external 0) three at_second refl refl refl refl
