-- ===== src/Shadowsocks/Writer.antt =====
-- transport/shadowsocks/stream.go: Writer after init. Of the array `buf` the model keeps the salt in
-- front and the plaintext that waits in the payload part, the first `pending` bytes of it: the
-- encryption in place overwrites that plaintext only when it is sent.
pub mod Sends
pub mod Lazy
pub mod Transfer
pub mod Input
pub mod ReadFrom
pub mod Write
pub mod Salt
use bfx_outline_sdk.Prelude.{
  ◌∷◌, zero, true, ◌/◌, ◌+◌, drop, take, ◌^◌, ◌++◌, ◌-◌, replicate, ◌%◌, min, suc, ◌==◌, none, some,
  length, false, ℕ, [], Option, not, Bool, if◌then◌else◌,
}
use bfx_outline_sdk.Io.{Bytes, GoError, Fault, Writer, Wire, send, wrapped, is_eof}
use bfx_outline_sdk.Io.Source.{Source, read, unread, bytes_reader}
use bfx_outline_sdk.Shadowsocks.Nonce.{increment, is_zero}
use bfx_outline_sdk.Shadowsocks.Cipher.{Aead}

-- payloadSizeMask, 0x3FFF.
abbrev pub payload_size_mask : ℕ
payload_size_mask = 16383

-- binary.BigEndian.PutUint16 of uint16(n).
abbrev pub uint16_be : ℕ → Bytes
uint16_be n = (n % 2 ^ 16 / 256) ∷ (n % 256) ∷ []

pub record Session (w : Writer) : Type 0 where
  pub writer : Wire w
  pub need_flush : Bool
  pub pending : Bytes
  pub counter : Bytes

module _ (w : Writer) (salt : Bytes) (aead : Aead) where
  -- What init leaves.
  unfoldable pub new_session : Wire w → Session w
  new_session c = record {
    writer = c;
    need_flush = false;
    pending = [];
    counter = replicate aead.nonce_size 0;
  }

  unfoldable pub encrypt_block : Session w → Bytes → Session w × Bytes
  encrypt_block s plaintext =
      (record s { counter = increment s.counter }, aead.seal s.counter plaintext)

  unfoldable pub enqueue : Session w → Bytes → Session w × ℕ
  enqueue s plaintext =
      let n = min (payload_size_mask - length s.pending) (length plaintext) in
      (record s { pending = s.pending ++ take n plaintext }, n)

  -- flush behind its test for pending data.
  unfoldable pub flush_pending : Session w → Session w × Fault
  flush_pending s =
      let start = if is_zero s.counter then salt else [] in
      let (s1, size_block) = encrypt_block s (uint16_be (length s.pending)) in
      let (s2, payload) = encrypt_block s1 s.pending in
      let (c, n, err) = send w s.writer (start ++ size_block ++ payload) in
      (record s2 { writer = c; pending = [] }, err)

  unfoldable pub flush : Session w → Session w × Fault
  flush s = if length s.pending == 0 then (s, none) else flush_pending s

  -- Flush.
  unfoldable pub flush_lazy : Session w → Session w × Fault
  flush_lazy s = if not s.need_flush then (s, none) else flush s

  -- The loop of LazyWrite, on fuel; `none` means that the fuel ran out.
  unfoldable pub lazy_write_loop : ℕ → Session w → Bytes → ℕ → Option (Session w × ℕ × Fault)
  lazy_write_loop zero s p queued = none
  lazy_write_loop (suc fuel) s p queued =
      let (s', n) = enqueue s p in
      let (s'', err) = flush s' in
      let again : Option (Session w × ℕ × Fault) = elim err [
        | none ↦ lazy_write_loop fuel s'' (drop n p) (queued + n)
        | some e ↦ some (s'', queued + n, some e)
      ] in
      if length (drop n p) == 0
      then some (record s' { need_flush = true }, queued + n, none)
      else again

  unfoldable pub lazy_write : Session w → Bytes → Option (Session w × ℕ × Fault)
  lazy_write s p = lazy_write_loop (suc (suc (length p))) s p 0

  -- A later error takes the place of an earlier one.
  abbrev pub or_flush : Fault → Fault → Fault
  or_flush err none = err
  or_flush err (some e) = some e

  -- The one read of ReadFrom while a Flush may run on another thread. `meanwhile` tells whether one
  -- runs between the two locks.
  unfoldable pub first_read : Bool → Session w → Source → Session w × ℕ × Fault × Source
  first_read meanwhile s src =
      let (c, err, src') = read (payload_size_mask - length s.pending) src in
      let s1 = if meanwhile then (flush_lazy s).0 else s in
      let (s2, n) = enqueue s1 c in
      let (s3, flush_err) = flush s2 in
      (record s3 { need_flush = false }, length c, or_flush err flush_err, src')

  -- The main transfer loop, on fuel; `none` means that the fuel ran out.
  unfoldable pub transfer :
      ℕ → Session w → ℕ → Fault → Source → Option (Session w × ℕ × GoError × Source)
  transfer fuel s written (some e) src = some (s, written, e, src)
  transfer zero s written none src = none
  transfer (suc fuel) s written none src =
      let (c, err, src') = read payload_size_mask src in
      let (s', flush_err) = flush (record s { pending = c }) in
      transfer fuel s' (written + length c) (or_flush err flush_err) src'

  abbrev pub read_from_result : Session w × ℕ × GoError × Source → Session w × ℕ × Fault × Source
  read_from_result (s, n, e, src) =
      (s, n, if is_eof e then none else some (wrapped "failed to read payload" e), src)

  unfoldable pub read_from : Bool → Session w → Source → Option (Session w × ℕ × Fault × Source)
  read_from meanwhile s src =
      let fuel = suc (length (unread src) + length src) in
      let (s', n, err, src') : Session w × ℕ × Fault × Source =
        if s.need_flush then first_read meanwhile s src else (s, 0, none, src) in
      elim (transfer fuel s' n err src') [ none ↦ none | some r ↦ some (read_from_result r) ]

  -- Write, of which ReadFrom does the work; what is left of the slice is forgotten.
  unfoldable pub write : Bool → Session w → Bytes → Option (Session w × ℕ × Fault)
  write meanwhile s p = elim (read_from meanwhile s (bytes_reader p)) [
    | none ↦ none
    | some (s', n, err, src') ↦ some (s', n, err)
  ]
