-- ===== src/Shadowsocks/Writer/Salt.antt =====
-- The salt of a Shadowsocks stream: flush puts it in front of the message with the nonce zero.
use bfx_outline_sdk.Prelude.{
  append_assoc, ap₂, ◌∙◌, length-replicate, ap, length, Bool-cases, replicate, arith, ◌≡◌, refl, [],
  ◌∷◌, ◌++◌, ◌<◌, inl, inr, List, ◌*◌, ◌+◌, ◌^◌,
}
use bfx_outline_sdk.Io.{Bytes}
use bfx_outline_sdk.Shadowsocks.Cipher.{Aead}
use bfx_outline_sdk.Shadowsocks.Nonce.{
  increment, is_zero, value, AllBytes, value-increment, length-increment, increment-AllBytes,
  is_zero-value, value-zeros, AllBytes-zeros,
}
use bfx_outline_sdk.Shadowsocks.Writer.{uint16_be}
use bfx_outline_sdk.Shadowsocks.Writer.Sends.{messages, chunk_message}

-- The nonce two messages further on, if the count does not wrap around.
value-increment_twice :
    (c : Bytes)
    → AllBytes c
    → value c + 2 < 256 ^ length c
    → value (increment (increment c)) ≡ value c + 2
value-increment_twice c h lt =
    let len = ap (λ n. 256 ^ n) (length-increment c) in
    let once = value-increment c h in
    let twice = value-increment (increment c) (increment-AllBytes c h) in
    ground (arith, once, twice, len)

module _ (salt : Bytes) (aead : Aead) where
  -- A message with a nonce other than zero has no salt.
  chunk_message-unsalted :
      (c p : Bytes) → 0 < value c → chunk_message salt aead c p ≡ chunk_message [] aead c p
  chunk_message-unsalted c p h = elim (Bool-cases (is_zero c)) [
    | inl e ↦ absurd (omega (arith, (is_zero-value c).0 e))
    | inr e ↦ rw e refl
  ]

  messages-unsalted :
      (c : Bytes) (ps : List Bytes)
      → AllBytes c
      → 0 < value c
      → value c + 2 * length ps < 256 ^ length c
      → messages salt aead c ps ≡ messages [] aead c ps
  messages-unsalted c [] h pos lt = refl
  messages-unsalted c (p ∷ ps) h pos lt =
      let next = value-increment_twice c h (omega arith) in
      let len = ap (λ n. 256 ^ n) (length-increment (increment c) ∙ length-increment c) in
      ap₂ ◌∷◌ (chunk_message-unsalted c p pos) (
        messages-unsalted (increment (increment c)) ps
          (increment-AllBytes (increment c) (increment-AllBytes c h)) (omega arith) (omega arith))

  -- Until the nonces of a stream run out, the salt is in front of its first message only.
  pub messages-salted_once :
      (p : Bytes) (ps : List Bytes)
      → 2 * length (p ∷ ps) < 256 ^ aead.nonce_size
      → let c : Bytes = replicate aead.nonce_size 0 in
        messages salt aead c (p ∷ ps)
        ≡ (salt ++ chunk_message [] aead c p) ∷ messages [] aead (increment (increment c)) ps
  messages-salted_once p ps lt =
      let c : Bytes = replicate aead.nonce_size 0 in
      let bytes = AllBytes-zeros aead.nonce_size in
      let none_used = value-zeros aead.nonce_size in
      let size : 256 ^ length c ≡ 256 ^ aead.nonce_size =
        ap (λ n. 256 ^ n) (length-replicate aead.nonce_size 0) in
      let len = ap (λ n. 256 ^ n) (length-increment (increment c) ∙ length-increment c) in
      let next = value-increment_twice c bytes (omega arith) in
      ap₂ ◌∷◌
        (rw ((is_zero-value c).1 none_used)
          (append_assoc salt (aead.seal c (uint16_be (length p))) (aead.seal (increment c) p)))
        (messages-unsalted (increment (increment c)) ps
          (increment-AllBytes (increment c) (increment-AllBytes c bytes)) (omega arith)
          (omega arith))
