-- ===== src/Shadowsocks/Reader/Chunks.antt =====
-- ReadChunk on the bytes of a Shadowsocks stream, which come cut up in any way.
use bfx_outline_sdk.Prelude.{
  zero, false, ltb, if◌then◌else◌, Bool, ◌^◌, ◌%◌, suc, ℕ, ◌+◌, ◌≡◌, ◌++◌, some, [], ◌∷◌, length,
  arith, refl, sym, ap, ◌∙◌, List, ◌≤◌, ◌<◌, inr, inl,
}
use bfx_outline_sdk.Io.{short_buffer, eof, Bytes, Fallible}
use bfx_outline_sdk.Io.Source.{read_full_loop, Source, read_full, unread}
use bfx_outline_sdk.Io.Source.Full.{Smooth, read_full-Gets}
use bfx_outline_sdk.Shadowsocks.Nonce.{increment, length-increment}
use bfx_outline_sdk.Shadowsocks.Cipher.{Aead}
use bfx_outline_sdk.Shadowsocks.Writer.{uint16_be}
use bfx_outline_sdk.Shadowsocks.Reader.{
  payload_buffer_size, payload_result, uint16, decrypted, payload_size_mask, read_opened,
  ChunkReader, read_message, open_block, read_payload,
}

-- The reader stands in front of the bytes `rest`, with the nonce `counter`.
pub record At (aead : Aead) (counter rest : Bytes) (s : ChunkReader) : Type 0 where
  pub opened : s.aead ≡ some aead
  pub at_counter : s.counter ≡ counter
  pub bytes_left : unread s.reader ≡ rest
  pub smooth : Smooth s.reader

-- The chunk `p` is read, and the reader is ready for `rest`.
abbrev pub Yields : Aead → Bytes → Bytes → Bytes → ChunkReader × Fallible Bytes → Type 0
Yields aead counter rest p r = (s : ChunkReader) × (r ≡ (s, inr p)) × At aead counter rest s

-- There is nothing to read.
Smooth-end : (src : Source) → Smooth src → unread src ≡ [] → src ≡ []
Smooth-end [] h e = refl
Smooth-end (([], err) ∷ r) (hc, he, hr) e = absurd (omega arith)
Smooth-end ((b ∷ c, err) ∷ r) h e = absurd (omega (arith, ap length e))

pub read_full-end :
    (n : ℕ) (src : Source)
    → 0 < n
    → Smooth src
    → unread src ≡ []
    → read_full n src ≡ ([], some eof, [])
unfolding read_full read_full_loop
read_full-end zero src pos h e = absurd (omega arith)
read_full-end (suc n) src pos h e = rw (Smooth-end src h e) refl

module _ (aead : Aead) where
  -- The chunks `ps` on the wire, from the nonce `counter` on.
  abbrev pub frames : Bytes → List Bytes → Bytes
  frames counter [] = []
  frames counter (p ∷ ps) =
      aead.seal counter (uint16_be (length p))
      ++ (aead.seal (increment counter) p ++ frames (increment (increment counter)) ps)

  read_message-Yields :
      (s : ChunkReader) (counter p rest : Bytes) (n : ℕ)
      → At aead counter (aead.seal counter p ++ rest) s
      → length counter ≡ aead.nonce_size
      → length p + aead.overhead ≡ n
      → Yields aead (increment counter) rest p (read_message aead s n)
  unfolding read_message open_block
  read_message-Yields s counter p rest n h len size =
      let block = read_full-Gets (aead.seal counter p) rest s.reader h.smooth h.bytes_left in
      let whole : length (aead.seal counter p) ≡ n = aead.length-seal counter p len ∙ size in
      let s' : ChunkReader = record s { reader = block.0; counter = increment s.counter } in
      let plain : decrypted (aead.open_sealed s.counter (aead.seal counter p)) ≡ inr p =
        ap (λ c. decrypted (aead.open_sealed c (aead.seal counter p))) h.at_counter
        ∙ ap decrypted (aead.open_sealed-seal counter p len) in
      (
        s',
        ap (λ k. open_block aead s (read_full k s.reader)) (sym whole)
            ∙ ap (open_block aead s) block.1
            ∙ ap (λ r. (s', r)) plain,
        record {
          opened = h.opened;
          at_counter = ap increment h.at_counter;
          bytes_left = block.2;
          smooth = block.3;
        },
      )

  uint16-uint16_be : (n : ℕ) → n ≤ payload_size_mask → uint16 (uint16_be n) % 2 ^ 14 ≡ n
  uint16-uint16_be n h = omega arith

  read_payload-Yields :
      (s : ChunkReader) (counter p rest : Bytes)
      → At aead counter (aead.seal counter p ++ rest) s
      → length counter ≡ aead.nonce_size
      → length p ≤ payload_size_mask
      → aead.overhead ≤ 16
      → Yields aead (increment counter) rest p (read_payload aead (s, inr (uint16_be (length p))))
  unfolding read_payload
  read_payload-Yields s counter p rest h len size tag =
      let n = uint16 (uint16_be (length p)) % 2 ^ 14 in
      let same : n ≡ length p = uint16-uint16_be (length p) size in
      let y =
        read_message-Yields s counter p rest (n + aead.overhead) h len (omega (arith, same)) in
      let branch : Bool → ChunkReader × Fallible Bytes = λ b.
        if b
        then (s, inl short_buffer)
        else payload_result (read_message aead s (n + aead.overhead)) in
      let fits : ltb payload_buffer_size (n + aead.overhead) ≡ false = ground (arith, same) in
      (y.0, ap branch fits ∙ ap payload_result y.1, y.2)

  -- One chunk, from the reader in front of it.
  pub read_opened-Yields :
      (s : ChunkReader) (counter p rest : Bytes)
      → At aead counter
          (aead.seal counter (uint16_be (length p)) ++ (aead.seal (increment counter) p ++ rest))
          s
      → length counter ≡ aead.nonce_size
      → length p ≤ payload_size_mask
      → aead.overhead ≤ 16
      → Yields aead (increment (increment counter)) rest p (read_opened (s, inr aead))
  read_opened-Yields s counter p rest h len size tag =
      let y =
        read_message-Yields s counter (uint16_be (length p))
          (aead.seal (increment counter) p ++ rest) (2 + aead.overhead) h len refl in
      let z =
        read_payload-Yields y.0 (increment counter) p rest y.2 (length-increment counter ∙ len) size
          tag in
      (z.0, ap (read_payload aead) y.1 ∙ z.1, z.2)

  -- At the end of the stream.
  pub read_opened-end :
      (s : ChunkReader) (counter : Bytes)
      → At aead counter [] s
      → read_opened (s, inr aead) ≡ (record s { reader = [] }, inl eof)
  unfolding read_payload read_message open_block
  read_opened-end s counter h =
      ap (λ r. read_payload aead (open_block aead s r))
        (read_full-end (2 + aead.overhead) s.reader (omega arith) h.smooth h.bytes_left)
