-- ===== src/Tls/Buffer.antt =====
-- transport/tlsfrag/buffer.go: clientHelloBuffer. `data` and its capacity are the slice; the field
-- `bufrd` only wraps the argument of Write.
pub mod Reads
pub mod Collect
pub mod Write
use bfx_outline_sdk.Prelude.{
  ℕ, ◌+◌, ◌-◌, ◌*◌, ◌%◌, ◌^◌, Option, none, some, Bool, [], ◌∷◌, ◌++◌, not, ◌&&◌, ltb, ◌==◌,
  if◌then◌else◌, length, take, drop,
}
use bfx_outline_sdk.Io.{
  Bytes, GoError, Fault, eof, unexpected_eof, short_write, client_hello_received,
}
use bfx_outline_sdk.Io.Source.{Source, read_full, bytes_reader}
use bfx_outline_sdk.Tls.Header.{record_header_len, payload_len, validate, new_header}

pub record HelloBuffer : Type 0 where
  pub bytes : Bytes
  pub capacity : ℕ
  pub validation_err : Fault

unfoldable pub new_buffer : HelloBuffer
new_buffer = record { bytes = []; capacity = record_header_len; validation_err = none }

abbrev without_eof : Fault → Fault
without_eof (some eof) = none
without_eof e = e

-- The errors of ReadFull that mean "not yet five bytes".
abbrev without_short : Fault → Fault
without_short (some eof) = none
without_short (some unexpected_eof) = none
without_short e = e

-- The loop of ReadFrom for the payload, over the answers of the reader; `n` counts what is read.
unfoldable pub fill : HelloBuffer → ℕ → Source → HelloBuffer × ℕ × Fault × Source
fill b n [] =
    if ltb (length b.bytes) (b.capacity - record_header_len)
    then (b, n, none, [])
    else (b, n, some client_hello_received, [])
fill b n ((c, e) ∷ r) =
    let room = b.capacity - record_header_len - length b.bytes in
    let b' = record b { bytes = b.bytes ++ take room c } in
    let n' = n + length (take room c) in
    let more : HelloBuffer × ℕ × Fault × Source = elim e [
      | none ↦ fill b' n' r
      | some e' ↦ (b', n', without_eof (some e'), r)
    ] in
    if not (ltb (length b.bytes) (b.capacity - record_header_len))
    then (b, n, some client_hello_received, (c, e) ∷ r)
    else if ltb room (length c)
    then (b', n', some client_hello_received, (drop room c, e) ∷ r)
    else if length b'.bytes == b.capacity - record_header_len
    then (b', n', some client_hello_received, r)
    else more

-- The part of ReadFrom behind the header.
unfoldable pub read_payload : HelloBuffer → ℕ → Source → HelloBuffer × ℕ × Fault × Source
read_payload b n src = elim b.validation_err [ some e ↦ (b, n, some e, src) | none ↦ fill b n src ]

-- The header is complete: it is validated, and the buffer grows to hold the record and a second header.
unfoldable pub check_header : HelloBuffer → ℕ → Source → HelloBuffer × ℕ × Fault × Source
check_header b n src = elim (new_header b.bytes).1 [
  | some e ↦ (record b { validation_err = some e }, n, some e, src)
  | none ↦ elim (validate b.bytes) [
    | some e ↦ (record b { validation_err = some e }, n, some e, src)
    | none ↦
        read_payload
          (record b { capacity = (record_header_len * 2 + payload_len b.bytes) % 2 ^ 16 }) n src
  ]
]

unfoldable pub read_from : HelloBuffer → Source → HelloBuffer × ℕ × Fault × Source
read_from b src =
    let (got, e, rest) = read_full (record_header_len - length b.bytes) src in
    let b' = record b { bytes = b.bytes ++ got } in
    let header : HelloBuffer × ℕ × Fault × Source = elim e [
      | some e' ↦ (b', length got, without_short (some e'), rest)
      | none ↦ check_header b' (length got) rest
    ] in
    if ltb (length b.bytes) record_header_len then header else read_payload b 0 src

-- io.ErrShortWrite if ReadFrom reports no error and has not taken the whole slice.
abbrev pub whole_write : ℕ → ℕ → Fault → Fault
whole_write n len none = if n == len then none else some short_write
whole_write n len (some e) = some e

unfoldable pub write : HelloBuffer → Bytes → HelloBuffer × ℕ × Fault
write b p =
    let (b', n, err, _) = read_from b (bytes_reader p) in (b', n, whole_write n (length p) err)
