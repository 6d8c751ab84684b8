-- ===== src/Tls/HelloWriter.antt =====
-- transport/tlsfrag/writer.go: clientHelloFragWriter. The callback `frag` is a parameter.
pub mod Records
pub mod Stream
pub mod Write
pub mod Run
use bfx_outline_sdk.Prelude.{
  ℕ, ◌+◌, ◌-◌, ◌*◌, ◌%◌, ◌^◌, Option, none, some, Bool, true, false, [], ◌∷◌, ◌++◌, not, ◌&&◌, ◌||◌,
  ltb, ◌==◌, if◌then◌else◌, length, take, drop, replicate,
}
use bfx_outline_sdk.Prelude.Int.{ℤ, pos, pos_part, leb_ℤ}
use bfx_outline_sdk.Io.{
  Bytes, GoError, Fault, Writer, Wire, send, client_hello_received, short_write,
}
use bfx_outline_sdk.Tls.Header.{record_header_len, set_payload_len}
use bfx_outline_sdk.Tls.Buffer.{HelloBuffer, new_buffer}
use bfx_outline_sdk.Tls.Buffer

-- copy(dst[i:], src).
abbrev pub copy_at : ℕ → Bytes → Bytes → Bytes
copy_at i src dst = take i dst ++ take (length dst - i) src ++ drop (i + length src) dst

-- splitHelloBufToRecord behind its guard: the record grows into the spare five bytes, the tail is
-- moved up, and the second header is put in front of it.
unfoldable pub split_record : Bytes → ℕ → Bytes
split_record original head_len =
    let content = drop record_header_len original in
    let tail_len = length content - head_len in
    let grown = original ++ replicate record_header_len 0 in
    let first = (set_payload_len grown (head_len % 2 ^ 16)).0 in
    let tail = drop (record_header_len + head_len) (take (length original) first) in
    let moved = copy_at (record_header_len * 2 + head_len) tail first in
    let headed = copy_at (record_header_len + head_len) (take record_header_len moved) moved in
    let second = take record_header_len (drop (record_header_len + head_len) headed) in
    copy_at (record_header_len + head_len) (set_payload_len second (tail_len % 2 ^ 16)).0 headed

-- splitHelloBufToRecord and copyHelloBufToRecord: what w.record holds afterwards.
unfoldable pub split_hello : (Bytes → ℤ) → Bytes → Bytes
split_hello frag original =
    let content = drop record_header_len original in
    let head_len = frag content in
    if leb_ℤ head_len (pos 0) || leb_ℤ (pos (length content)) head_len
    then original
    else split_record original (pos_part head_len)

-- `record_buf` is w.record. w.helloBuf is not read once w.record is set, so its release for the
-- garbage collector is left out.
pub record HelloWriter (w : Writer) : Type 0 where
  pub base : Wire w
  pub done : Bool
  pub hello_buf : HelloBuffer
  pub record_buf : Option Bytes

module _ (w : Writer) (frag : Bytes → ℤ) where
  unfoldable pub new_hello_writer : Wire w → HelloWriter w
  new_hello_writer c = record { base = c; done = false; hello_buf = new_buffer; record_buf = none }

  -- io.Copy from w.record: one Write of all that it holds, none if it is empty.
  unfoldable pub flush_record : HelloWriter w → Bytes → HelloWriter w × Fault
  flush_record s [] = (record s { record_buf = none; done = true }, none)
  flush_record s (b ∷ rec) =
      let (c, m, e) = send w s.base (b ∷ rec) in
      let left = drop m (b ∷ rec) in
      let err : Fault = elim e [
        | some e' ↦ some e'
        | none ↦ if m == length (b ∷ rec) then none else some short_write
      ] in
      (
        elim left [
          | [] ↦ record s { base = c; record_buf = none; done = true }
          | x ∷ more ↦ record s { base = c; record_buf = some (x ∷ more) }
        ],
        err,
      )

  -- The last part of Write: what is left of the slice goes straight to the base, `n` bytes being
  -- already counted.
  unfoldable pub write_rest : HelloWriter w → Bytes → ℕ → HelloWriter w × ℕ × Fault
  write_rest s [] n = (s, n, none)
  write_rest s (b ∷ p) n =
      let (c, m, e) = send w s.base (b ∷ p) in (record s { base = c }, n + m, e)

  unfoldable pub flush_and_write : HelloWriter w → Bytes → Bytes → ℕ → HelloWriter w × ℕ × Fault
  flush_and_write s rec p n =
      let (s', err) = flush_record s rec in
      elim err [ some e ↦ (s', n, some e) | none ↦ write_rest s' p n ]

  -- errors.Is(err, errTLSClientHelloFullyReceived).
  abbrev pub record_for : GoError → Bytes → Bytes
  record_for client_hello_received original = split_hello frag original
  record_for _ original = original

  -- The branch on `w.record == nil`.
  unfoldable pub write_undone : HelloWriter w → Option Bytes → Bytes → HelloWriter w × ℕ × Fault
  write_undone s (some rec) p = flush_and_write s rec p 0
  write_undone s none p =
      let (b, n, err) = Buffer.write s.hello_buf p in
      let s' = record s { hello_buf = b } in
      elim err [
        | none ↦ (s', n, none)
        | some e ↦
            flush_and_write (record s' { record_buf = some (record_for e b.bytes) })
              (record_for e b.bytes) (drop n p) n
      ]

  unfoldable pub write : HelloWriter w → Bytes → HelloWriter w × ℕ × Fault
  write s p = if s.done then write_rest s p 0 else write_undone s s.record_buf p
