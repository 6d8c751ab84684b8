-- ===== src/Shadowsocks/Packet.antt =====
-- transport/shadowsocks/packet.go: PackSalt and Unpack. A destination slice is its length (for
-- PackSalt) or its capacity (for Unpack, none for a nil slice: then the packet itself is used).
use bfx_outline_sdk.Prelude.{
  drop-length-append, take-length-append, sym, ap, refl, le→ltb, length-append, ◌∙◌, length-take,
  ◌-◌, drop, ltb, false, if◌then◌else◌, Bool, length, take, ℕ, Option, replicate, arith, ◌≡◌, inl,
  inr, ◌⊎◌, ◌+◌, ◌++◌, some, none, ◌≤◌,
}
use bfx_outline_sdk.Io.{Bytes, GoError, Fault, short_buffer, unexpected_eof, message}
use bfx_outline_sdk.Shadowsocks.Cipher.{Aead, EncryptionKey, new_aead}

-- ErrShortPacket.
abbrev pub err_short_packet : GoError
err_short_packet = message "short packet"

-- zeroNonce, of which the code takes as many bytes as the nonce has.
abbrev pub zero_nonce : Bytes
zero_nonce = replicate 12 0

-- dst is not nil and its capacity is below `n`.
abbrev pub too_small : Option ℕ → ℕ → Bool
too_small none n = false
too_small (some c) n = ltb c n

module _ (hkdf : Bytes → Bytes → Bytes → ℕ → Bytes × Fault) (key : EncryptionKey) where
  -- `get_salt` is the salt generator: it fills a slice of so many bytes.
  unfoldable pub pack_salt : ℕ → Bytes → (ℕ → GoError ⊎ Bytes) → GoError ⊎ Bytes
  pack_salt dst_len plaintext get_salt =
      if ltb dst_len key.cipher.salt_size
      then inl short_buffer
      else elim (get_salt key.cipher.salt_size) [
        | inl e ↦ inl e
        | inr salt ↦ elim (new_aead hkdf key salt) [
          | inl e ↦ inl e
          | inr aead ↦
              if ltb dst_len (key.cipher.salt_size + length plaintext + aead.overhead)
              then inl short_buffer
              else inr (salt ++ aead.seal (take aead.nonce_size zero_nonce) plaintext)
        ]
      ]

  -- The two results of Open.
  abbrev pub opened : Bytes × Fault → GoError ⊎ Bytes
  opened (p, none) = inr p
  opened (p, some e) = inl e

  unfoldable pub unpack : Option ℕ → Bytes → GoError ⊎ Bytes
  unpack dst pkt =
      let salt = take key.cipher.salt_size pkt in
      let cipher_text_and_tag = drop key.cipher.salt_size pkt in
      if ltb (length pkt) key.cipher.salt_size
      then inl err_short_packet
      else if ltb (length cipher_text_and_tag) key.cipher.tag_size
      then inl unexpected_eof
      else if too_small dst (length cipher_text_and_tag - key.cipher.tag_size)
      then inl short_buffer
      else elim (new_aead hkdf key salt) [
        | inl e ↦ inl e
        | inr aead ↦ opened (aead.open_sealed (take aead.nonce_size zero_nonce) cipher_text_and_tag)
      ]

  -- PackSalt fits the packet into a destination that is long enough, and Unpack gives the plaintext
  -- back.
  pub unpack-pack_salt :
      (dst_len : ℕ) (dst : Option ℕ) (plaintext salt : Bytes) (aead : Aead)
      (get_salt : ℕ → GoError ⊎ Bytes)
      → get_salt key.cipher.salt_size ≡ inr salt
      → length salt ≡ key.cipher.salt_size
      → new_aead hkdf key salt ≡ inr aead
      → aead.overhead ≡ key.cipher.tag_size
      → aead.nonce_size ≤ 12
      → key.cipher.salt_size + length plaintext + aead.overhead ≤ dst_len
      → too_small dst (length plaintext) ≡ false
      → (pkt : Bytes) × (pack_salt dst_len plaintext get_salt ≡ inr pkt)
        × (length pkt ≡ key.cipher.salt_size + length plaintext + key.cipher.tag_size)
        × (unpack dst pkt ≡ inr plaintext)
  unfolding pack_salt unpack
  unpack-pack_salt dst_len dst plaintext salt aead get_salt hs ls ha ho hn hd hc =
      let nonce = take aead.nonce_size zero_nonce in
      let full : length nonce ≡ aead.nonce_size =
        length-take aead.nonce_size zero_nonce ∙ omega arith in
      let sealed = aead.seal nonce plaintext in
      let len : length sealed ≡ length plaintext + aead.overhead =
        aead.length-seal nonce plaintext full in
      let rest : length sealed - key.cipher.tag_size ≡ length plaintext = omega arith in
      let behind : drop key.cipher.salt_size (salt ++ sealed) ≡ sealed =
        ap (λ n. drop n (salt ++ sealed)) (sym ls) ∙ drop-length-append salt sealed in
      let total = length-append salt sealed in
      (
        salt ++ sealed,
        rw
            (
              le→ltb dst_len key.cipher.salt_size (omega arith),
              hs,
              ha,
              le→ltb dst_len (key.cipher.salt_size + length plaintext + aead.overhead) hd,
            )
            refl,
        omega arith,
        rw
            (
              le→ltb (length (salt ++ sealed)) key.cipher.salt_size (omega arith),
              ap (λ n. take n (salt ++ sealed)) (sym ls) ∙ take-length-append salt sealed,
              behind,
              le→ltb (length sealed) key.cipher.tag_size (omega arith),
              ap (too_small dst) rest ∙ hc,
              ha,
              behind,
              aead.open_sealed-seal nonce plaintext full,
            )
            refl,
      )
