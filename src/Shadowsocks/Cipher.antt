-- ===== src/Shadowsocks/Cipher.antt =====
-- transport/shadowsocks/cipher.go: cipherSpec, EncryptionKey, NewAEAD and simpleEVPBytesToKey. The
-- ciphers and hashes themselves are parameters: code of Go's crypto packages.
pub mod Derive
pub mod Table
use bfx_outline_sdk.Prelude.{
  zero, take, ltb, if◌then◌else◌, ◌++◌, ◌+◌, none, inl, ◌≡◌, suc, Option, length, some, [], ◌∷◌, ℕ,
  ◌⊎◌,
}
use bfx_outline_sdk.Io.{Bytes, GoError, Fault}

-- cipher.AEAD: Open undoes Seal under the same nonce, and Seal adds Overhead bytes. Nonces of
-- another length make both panic.
pub record Aead : Type 0 where
  pub nonce_size : ℕ
  pub overhead : ℕ
  pub seal : Bytes → Bytes → Bytes
  pub open_sealed : Bytes → Bytes → Bytes × Fault
  pub open_sealed-seal :
      (nonce p : Bytes) → length nonce ≡ nonce_size → open_sealed nonce (seal nonce p) ≡ (p, none)
  pub length-seal :
      (nonce p : Bytes) → length nonce ≡ nonce_size → length (seal nonce p) ≡ length p + overhead

pub record CipherSpec : Type 0 where
  pub new_instance : Bytes → GoError ⊎ Aead
  pub key_size : ℕ
  pub salt_size : ℕ
  pub tag_size : ℕ

pub record EncryptionKey : Type 0 where
  pub cipher : CipherSpec
  pub secret : Bytes

-- "ss-subkey".
abbrev subkey_info : Bytes
subkey_info = 115 ∷ 115 ∷ 45 ∷ 115 ∷ 117 ∷ 98 ∷ 107 ∷ 101 ∷ 121 ∷ []

-- `hkdf` is hkdf.New(sha1.New, secret, salt, info) and the io.ReadFull of so many bytes from it.
unfoldable pub new_aead :
    (Bytes → Bytes → Bytes → ℕ → Bytes × Fault) → EncryptionKey → Bytes → GoError ⊎ Aead
new_aead hkdf c salt =
    let (session_key, err) = hkdf c.secret salt subkey_info c.cipher.key_size in
    elim err [ some e ↦ inl e | none ↦ c.cipher.new_instance session_key ]

module _ (md5 : Bytes → Bytes) where
  -- The loop of simpleEVPBytesToKey, on fuel: `di` is the last block, and `none` means that the
  -- fuel ran out.
  unfoldable pub evp_loop : ℕ → Bytes → ℕ → Bytes → Bytes → Option Bytes
  evp_loop zero text key_len derived di = none
  evp_loop (suc fuel) text key_len derived di =
      let di' = md5 (di ++ text) in
      let more = evp_loop fuel text key_len (derived ++ di') di' in
      if ltb (length derived) key_len then more else some (take key_len derived)

  -- A hash writes to memory and never fails, so the error branches are left out.
  unfoldable pub simple_evp_bytes_to_key : Bytes → ℕ → Option Bytes
  simple_evp_bytes_to_key text key_len = evp_loop (suc key_len) text key_len [] []
