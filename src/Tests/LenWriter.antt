-- ===== src/Tests/LenWriter.antt =====
-- Tests and instances for the record length writer.
use bfx_outline_sdk.Prelude.{
  inr, zero, suc, ℕ, ◌≡◌, ◌≤◌, ◌++◌, none, some, [], ◌∷◌, length, arith, refl, List, flatten, min,
}
use bfx_outline_sdk.Prelude.Int.{ℤ, pos, negsuc}
use bfx_outline_sdk.Io.{Bytes, Fault, Wire, Writer, perfect, send, external}
use bfx_outline_sdk.Tls.Header.{validate, payload_len, set_payload_len}
use bfx_outline_sdk.Tls.Fragment.{two_records, IsHello}
use bfx_outline_sdk.Tls.LenWriter.{
  LenWriter, new_len_writer, write, write_header, write_first, write_tail, write_record, write_both,
  write_both_n, write_n, second_header, start_record, update_split_record_lens,
}
use bfx_outline_sdk.Tls.LenWriter.Reliable.{Reliable}
use bfx_outline_sdk.Tls.LenWriter.Emits.{emitted}
use bfx_outline_sdk.Tls.LenWriter.Run.{writes, all_taken, writes-emitted}
use bfx_outline_sdk.Tls.FixedLen.{
  FixedLenConn, fixed_pieces, dial_fixed_len, conn_writes, dial_fixed_len-sends,
}

abbrev hello : Bytes
hello = 22 ∷ 3 ∷ 1 ∷ 0 ∷ 4 ∷ 10 ∷ 11 ∷ 12 ∷ 13 ∷ []

abbrev pieces : List Bytes
pieces = (22 ∷ 3 ∷ 1 ∷ []) ∷ (0 ∷ 4 ∷ 10 ∷ []) ∷ (11 ∷ 12 ∷ 13 ∷ 7 ∷ []) ∷ (8 ∷ []) ∷ []

abbrev in_the_middle : ℕ → ℤ
in_the_middle n = pos 2

abbrev fresh : Wire perfect
fresh = record { state = tt; sent = [] }

perfect-Reliable : Reliable perfect
perfect-Reliable s p = refl

sent_by : {w : Writer} → LenWriter w × List (ℕ × Fault) → List Bytes
sent_by (s, answers) = s.base.sent

-- The header of the first record goes out before its payload has come.
writes_runs :
    sent_by (writes in_the_middle (new_len_writer perfect fresh) pieces)
    ≡ (22 ∷ 3 ∷ 1 ∷ 0 ∷ 2 ∷ 10 ∷ [])
      ∷ (11 ∷ [])
      ∷ (22 ∷ 3 ∷ 1 ∷ 0 ∷ 2 ∷ 12 ∷ 13 ∷ 7 ∷ [])
      ∷ (8 ∷ [])
      ∷ []
unfolding sent_by writes new_len_writer write write_header write_first write_tail write_record
    write_both write_both_n write_n second_header start_record update_split_record_lens validate
    payload_len set_payload_len send
writes_runs = refl

writes-emitted_example :
    (s : LenWriter perfect) × (writes in_the_middle (new_len_writer perfect fresh) pieces
      ≡ (s, all_taken pieces))
    × (flatten s.base.sent ≡ flatten fresh.sent ++ emitted in_the_middle (flatten pieces))
writes-emitted_example = writes-emitted in_the_middle fresh pieces perfect-Reliable

hello-IsHello : IsHello hello
unfolding validate payload_len
hello-IsHello = (refl, refl)

-- A base that takes two bytes of its first Write and reports an error, and then takes all.
stumble : ℕ → Bytes → ℕ × ℕ × Fault
stumble zero p = (1, min 2 (length p), some (external 0))
stumble (suc n) p = (suc n, length p, none)

stumble-le : (s : ℕ) (p : Bytes) → (stumble s p).1 ≤ length p
unfolding stumble
stumble-le zero p = omega arith
stumble-le (suc n) p = omega arith

stumble_full : (s : ℕ) (p : Bytes) → (stumble s p).2 ≡ none → (stumble s p).1 ≡ length p
unfolding stumble
stumble_full zero p h = absurd (cc h)
stumble_full (suc n) p h = refl

abbrev stumbling : Writer
unfolding stumble
stumbling = record { State = ℕ; write = stumble; write-le = stumble-le; write_full = stumble_full }

stumbling_fresh : Wire stumbling
unfolding stumbling
stumbling_fresh = record { state = zero; sent = [] }

-- When the caller goes on behind the error, the first record is sent with as many bytes too many as
-- the base took of its header before: `12` and `13` stand in front of the second header.
overrun_runs :
    sent_by (
      writes in_the_middle
        (new_len_writer stumbling stumbling_fresh)
        ((22 ∷ 3 ∷ 1 ∷ 0 ∷ 4 ∷ []) ∷ (10 ∷ 11 ∷ 12 ∷ 13 ∷ []) ∷ []))
    ≡ (22 ∷ 3 ∷ []) ∷ (1 ∷ 0 ∷ 2 ∷ 10 ∷ 11 ∷ 12 ∷ 13 ∷ []) ∷ (22 ∷ 3 ∷ 1 ∷ 0 ∷ 2 ∷ []) ∷ []
unfolding sent_by writes new_len_writer write write_header write_first write_tail write_record
    write_both write_both_n write_n second_header start_record update_split_record_lens validate
    payload_len set_payload_len send stumble stumbling stumbling_fresh
overrun_runs = refl

-- The second record gets the last byte.
last_byte :
    fixed_pieces (negsuc 0) hello ≡ 22 ∷ 3 ∷ 1 ∷ 0 ∷ 3 ∷ 10 ∷ 11 ∷ 12 ∷ 22 ∷ 3 ∷ 1 ∷ 0 ∷ 1 ∷ 13 ∷ []
unfolding two_records
last_byte = refl

dial_fixed_len-sends_example :
    (conn : FixedLenConn perfect) × (c' : Wire perfect) × (dial_fixed_len perfect
        (negsuc 0)
        (inr fresh)
      ≡ inr conn)
    × (conn_writes conn pieces ≡ (c', all_taken pieces))
    × (flatten c'.sent ≡ fixed_pieces (negsuc 0) hello ++ (7 ∷ 8 ∷ []))
dial_fixed_len-sends_example =
    dial_fixed_len-sends (negsuc 0) fresh pieces hello (7 ∷ 8 ∷ []) perfect-Reliable refl
      hello-IsHello
