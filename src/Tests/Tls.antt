-- ===== src/Tests/Tls.antt =====
-- Tests and instances for Tls.
use bfx_outline_sdk.Prelude.{ℕ, ◌≡◌, refl, inl, List, [], ◌∷◌, ◌++◌, arith}
use bfx_outline_sdk.Prelude.Int.{ℤ, pos}
use bfx_outline_sdk.Io.{Bytes, Wire, perfect, send}
use bfx_outline_sdk.Io.Delivery.{stream}
use bfx_outline_sdk.Io.Source.{read_full, read_full_loop}
use bfx_outline_sdk.Tls.Header.{validate, payload_len, set_payload_len, new_header}
use bfx_outline_sdk.Tls.Fragment.{IsHello, fragment, split_at}
use bfx_outline_sdk.Tls.Buffer
use bfx_outline_sdk.Tls.Buffer.{new_buffer, fill, read_payload, check_header, read_from}
use bfx_outline_sdk.Tls.Buffer.Collect.{Buffers}
use bfx_outline_sdk.Tls.HelloWriter
use bfx_outline_sdk.Tls.HelloWriter.{
  HelloWriter, new_hello_writer, flush_record, write_rest, flush_and_write, write_undone,
  split_hello, split_record,
}
use bfx_outline_sdk.Tls.HelloWriter.Records.{split_hello-split_at}
use bfx_outline_sdk.Tls.HelloWriter.Stream.{Accepts}
use bfx_outline_sdk.Tls.HelloWriter.Write.{write-Accepts}
use bfx_outline_sdk.Tls.HelloWriter.Run.{run, held, run-fragment, new_hello_writer-Inv}

-- A Client Hello record with four bytes of payload.
abbrev hello : Bytes
hello = 22 ∷ 3 ∷ 1 ∷ 0 ∷ 4 ∷ 10 ∷ 11 ∷ 12 ∷ 13 ∷ []

abbrev after_byte : ℕ → Bytes → ℤ
after_byte n _ = pos n

abbrev fresh : Wire perfect
fresh = record { state = tt; sent = [] }

abbrev tls : HelloWriter perfect
tls = new_hello_writer perfect (after_byte 1) fresh

hello-IsHello : IsHello hello
unfolding validate payload_len
hello-IsHello = (refl, refl)

split_hello_runs :
    split_hello (after_byte 1) hello
    ≡ 22 ∷ 3 ∷ 1 ∷ 0 ∷ 1 ∷ 10 ∷ 22 ∷ 3 ∷ 1 ∷ 0 ∷ 3 ∷ 11 ∷ 12 ∷ 13 ∷ []
unfolding split_hello split_record set_payload_len
split_hello_runs = refl

-- The record arrives in three Writes, with more behind it in the last.
abbrev pieces : List Bytes
pieces = (22 ∷ 3 ∷ []) ∷ (1 ∷ 0 ∷ 4 ∷ 10 ∷ []) ∷ (11 ∷ 12 ∷ 13 ∷ 99 ∷ []) ∷ []

run_sends :
    (run perfect (after_byte 1) tls pieces).0.base.sent
    ≡ (22 ∷ 3 ∷ 1 ∷ 0 ∷ 1 ∷ 10 ∷ 22 ∷ 3 ∷ 1 ∷ 0 ∷ 3 ∷ 11 ∷ 12 ∷ 13 ∷ []) ∷ (99 ∷ []) ∷ []
unfolding run new_hello_writer HelloWriter.write flush_record write_rest flush_and_write
    write_undone split_hello split_record set_payload_len Buffer.write read_from check_header
    read_payload fill new_buffer new_header validate payload_len read_full read_full_loop send
run_sends = refl

split_hello-split_at_example : split_hello (after_byte 1) hello ≡ split_at (after_byte 1) hello
split_hello-split_at_example = split_hello-split_at (after_byte 1) hello hello-IsHello

run-fragment_example :
    let (s, taken) = run perfect (after_byte 1) tls pieces in
    stream s.base ++ held s ≡ stream fresh ++ fragment (after_byte 1) taken
run-fragment_example = run-fragment perfect (after_byte 1) fresh pieces

new_buffer-Buffers : Buffers new_buffer []
unfolding new_buffer
new_buffer-Buffers = record { bytes_are = refl; no_error = refl; stage = inl (omega arith) }

write-Accepts_example :
    let r = HelloWriter.write perfect (after_byte 1) tls hello in
    Accepts perfect (after_byte 1) [] r.0 [] hello r.1 r.2
write-Accepts_example =
    write-Accepts perfect (after_byte 1) [] tls [] hello
      (new_hello_writer-Inv perfect (after_byte 1) fresh)
