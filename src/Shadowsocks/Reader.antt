-- ===== src/Shadowsocks/Reader.antt =====
-- transport/shadowsocks/stream.go: chunkReader and readConverter. The payload buffer is always one
-- of the pool's, of `payload_buffer_size` bytes, and is released before the next is acquired; the
-- slices that point into it are lists.
pub mod Chunks
pub mod Upcoming
pub mod Carries
pub mod Drains
pub mod Relay
use bfx_outline_sdk.Prelude.{
  ℕ, zero, suc, ◌+◌, ◌%◌, ◌^◌, none, some, Option, [], ltb, if◌then◌else◌, length, take, drop,
  replicate, String, inl, inr, Bool, true, false,
}
use bfx_outline_sdk.Io.{
  Bytes, Fault, GoError, Fallible, eof, unexpected_eof, short_buffer, wrapped, Writer, Wire, send,
  is_eof,
}
use bfx_outline_sdk.Io.Source.{Source, read_full}
use bfx_outline_sdk.Shadowsocks.Nonce.{increment}
use bfx_outline_sdk.Shadowsocks.Cipher.{Aead}
use bfx_outline_sdk.Shadowsocks.Writer.{payload_size_mask}
use bfx_outline_sdk.Socks5.Address.{uint16}

-- What readBufPool gives: payloadSizeMask + maxTagSize bytes.
abbrev pub payload_buffer_size : ℕ
payload_buffer_size = payload_size_mask + 16

-- `aead` and `counter` are set by init.
pub record ChunkReader : Type 0 where
  pub reader : Source
  pub aead : Option Aead
  pub counter : Bytes

-- NewReader.
abbrev pub new_reader : Source → ChunkReader
new_reader src = record { reader = src; aead = none; counter = [] }

abbrev pub is_end : GoError → Bool
is_end eof = true
is_end unexpected_eof = true
is_end _ = false

-- An error of the connection gets a text, the end of the stream does not.
abbrev pub annotate : String → GoError → GoError
annotate m e = if is_end e then e else wrapped m e

-- What readMessage returns for what Open answers.
abbrev pub decrypted : Bytes × Fault → Fallible Bytes
decrypted (p, none) = inr p
decrypted (p, some e) = inl (wrapped "failed to decrypt" e)

-- readMessage behind its read of the block. The nonce is used up even when Open fails.
unfoldable pub open_block :
    Aead → ChunkReader → Bytes × Fault × Source → ChunkReader × Fallible Bytes
open_block a s (buf, some e, src) = (record s { reader = src }, inl e)
open_block a s (buf, none, src) = (
  record s { reader = src; counter = increment s.counter },
  decrypted (a.open_sealed s.counter buf),
)

unfoldable pub read_message : Aead → ChunkReader → ℕ → ChunkReader × Fallible Bytes
read_message a s n = open_block a s (read_full n s.reader)

-- The end of the stream is not expected in the middle of a chunk.
abbrev pub mid_chunk : GoError → GoError
mid_chunk eof = unexpected_eof
mid_chunk e = e

abbrev pub payload_result : ChunkReader × Fallible Bytes → ChunkReader × Fallible Bytes
payload_result (s, inl e) = (s, inl (mid_chunk e))
payload_result (s, inr p) = (s, inr p)

-- ReadChunk behind the message with the size.
unfoldable pub read_payload : Aead → ChunkReader × Fallible Bytes → ChunkReader × Fallible Bytes
read_payload a (s, inl e) = (s, inl (annotate "failed to read payload size" e))
read_payload a (s, inr size_bytes) =
    let size = uint16 size_bytes % 2 ^ 14 in
    let size_with_tag = size + a.overhead in
    if ltb payload_buffer_size size_with_tag
    then (s, inl short_buffer)
    else payload_result (read_message a s size_with_tag)

-- ReadChunk behind init.
abbrev pub read_opened : ChunkReader × Fallible Aead → ChunkReader × Fallible Bytes
read_opened (s, inl e) = (s, inl e)
read_opened (s, inr a) = read_payload a (read_message a s (2 + a.overhead))

pub record ReadConverter : Type 0 where
  pub cr : ChunkReader
  pub leftover : Bytes

abbrev pub new_leftover : ReadConverter → ChunkReader × Fallible Bytes → ReadConverter × Fault
new_leftover c (cr, inl e) = (record { cr = cr; leftover = [] }, some e)
new_leftover c (cr, inr p) = (record { cr = cr; leftover = p }, none)

-- The bytes of `b` that Read fills, of so many.
abbrev pub read_leftover : ℕ → ReadConverter × Fault → ReadConverter × Bytes × Fault
read_leftover n (c, some e) = (c, [], some e)
read_leftover n (c, none) = (record c { leftover = drop n c.leftover }, take n c.leftover, none)

-- What WriteTo returns for an error of its reader.
abbrev pub write_to_end : GoError → Fault
write_to_end e = if is_eof e then none else some e

module _ (new_aead : Bytes → Fallible Aead) (salt_size : ℕ) where
  -- init behind its read of the salt.
  abbrev pub keyed : ChunkReader → Fallible Aead → ChunkReader × Fallible Aead
  keyed s (inl e) = (s, inl (wrapped "failed to create AEAD" e))
  keyed s (inr a) = (record s { aead = some a; counter = replicate a.nonce_size 0 }, inr a)

  unfoldable pub init_salt : ChunkReader → Bytes × Fault × Source → ChunkReader × Fallible Aead
  init_salt s (salt, some e, src) =
      (record s { reader = src }, inl (annotate "failed to read salt" e))
  init_salt s (salt, none, src) = keyed (record s { reader = src }) (new_aead salt)

  -- init, with the AEAD object that it leaves.
  abbrev pub init_unless : ChunkReader → Option Aead → ChunkReader × Fallible Aead
  init_unless s (some a) = (s, inr a)
  init_unless s none = init_salt s (read_full salt_size s.reader)

  unfoldable pub init : ChunkReader → ChunkReader × Fallible Aead
  init s = init_unless s s.aead

  unfoldable pub read_chunk : ChunkReader → ChunkReader × Fallible Bytes
  read_chunk s = read_opened (init s)

  unfoldable pub ensure_leftover : ReadConverter → ReadConverter × Fault
  ensure_leftover c =
      if ltb 0 (length c.leftover) then (c, none) else new_leftover c (read_chunk c.cr)

  unfoldable pub read : ℕ → ReadConverter → ReadConverter × Bytes × Fault
  read n c = read_leftover n (ensure_leftover c)

  module _ (w : Writer) where
    -- The loop of WriteTo, on fuel; `none` means that the fuel ran out.
    unfoldable pub write_to :
        ℕ → ReadConverter → Wire w → ℕ → Option (ReadConverter × Wire w × ℕ × Fault)
    write_to zero c out written = none
    write_to (suc fuel) c out written =
        let (c', err) = ensure_leftover c in
        let (out', n, write_err) = send w out c'.leftover in
        let c'' : ReadConverter = record c' { leftover = drop n c'.leftover } in
        let more = write_to fuel c'' out' (written + n) in
        elim err [
          | some e ↦ some (c', out, written, write_to_end e)
          | none ↦ elim write_err [ some e ↦ some (c'', out', written + n, some e) | none ↦ more ]
        ]
