-- ===== src/Shadowsocks/Cipher/Table.antt =====
-- transport/shadowsocks/cipher.go: the table of ciphers, and NewEncryptionKey. A secret is the bytes of
-- its text.
use bfx_outline_sdk.Prelude.{
  [], ℕ, ◌≡◌, ◌≤◌, ◌<◌, ◌⊎◌, ◌||◌, Bool, true, false, Option, none, some, inl, inr, String,
  if◌then◌else◌, length, take, length-take, refl, arith, ap,
}
use bfx_outline_sdk.Io.{Bytes, GoError, Fallible, message}
use bfx_outline_sdk.Shadowsocks.Cipher.{Aead, CipherSpec, EncryptionKey, simple_evp_bytes_to_key}
use bfx_outline_sdk.Shadowsocks.Cipher.Derive.{blocks, simple_evp_bytes_to_key-blocks}
use text.Mathlib.Text.{◌==◌}

-- What the table takes from other packages: the constructors of the ciphers, and strings.ToUpper.
pub record Ciphers : Type 0 where
  pub chacha20_poly1305 : Bytes → GoError ⊎ Aead
  pub aes_gcm : Bytes → GoError ⊎ Aead
  pub to_upper : String → String

-- ErrUnsupportedCipher, without the name.
abbrev pub err_unsupported_cipher : GoError
err_unsupported_cipher = message "unsupported cipher"

abbrev pub cipher_spec : (Bytes → GoError ⊎ Aead) → ℕ → ℕ → ℕ → CipherSpec
cipher_spec f k s t = record { new_instance = f; key_size = k; salt_size = s; tag_size = t }

abbrev pub by_upper_name : Ciphers → String → Fallible CipherSpec
by_upper_name c n =
    if n == "AEAD_CHACHA20_POLY1305" || n == "CHACHA20-IETF-POLY1305"
    then inr (cipher_spec c.chacha20_poly1305 32 32 16)
    else if n == "AEAD_AES_256_GCM" || n == "AES-256-GCM"
    then inr (cipher_spec c.aes_gcm 32 32 16)
    else if n == "AEAD_AES_192_GCM" || n == "AES-192-GCM"
    then inr (cipher_spec c.aes_gcm 24 24 16)
    else if n == "AEAD_AES_128_GCM" || n == "AES-128-GCM"
    then inr (cipher_spec c.aes_gcm 16 16 16)
    else inl err_unsupported_cipher

unfoldable pub cipher_by_name : Ciphers → String → Fallible CipherSpec
cipher_by_name c name = by_upper_name c (c.to_upper name)

abbrev pub key_with : CipherSpec → Option Bytes → Option (Fallible EncryptionKey)
key_with cipher none = none
key_with cipher (some secret) = some (inr (record { cipher = cipher; secret = secret }))

abbrev pub key_for : (Bytes → Bytes) → Bytes → Fallible CipherSpec → Option (Fallible EncryptionKey)
key_for md5 secret_text (inl e) = some (inl e)
key_for md5 secret_text (inr cipher) =
    key_with cipher (simple_evp_bytes_to_key md5 secret_text cipher.key_size)

-- `none` means that the fuel of the key derivation ran out.
unfoldable pub new_encryption_key :
    Ciphers → (Bytes → Bytes) → String → Bytes → Option (Fallible EncryptionKey)
new_encryption_key c md5 cipher_name secret_text =
    key_for md5 secret_text (cipher_by_name c cipher_name)

-- A row of the table, or the error.
abbrev Row : Fallible CipherSpec → Type 0
Row (inl e) = e ≡ err_unsupported_cipher
Row (inr s) = (s.salt_size ≡ s.key_size) × (s.tag_size ≡ 16) × (16 ≤ s.key_size)

if-Row : (b : Bool) (x y : Fallible CipherSpec) → Row x → Row y → Row (if b then x else y)
if-Row true x y h k = h
if-Row false x y h k = k

cipher_by_name-Row : (c : Ciphers) (name : String) → Row (cipher_by_name c name)
unfolding cipher_by_name
cipher_by_name-Row c name =
    let n = c.to_upper name in
    if-Row (n == "AEAD_CHACHA20_POLY1305" || n == "CHACHA20-IETF-POLY1305") _ _
      (omega arith, refl, omega arith)
      (if-Row (n == "AEAD_AES_256_GCM" || n == "AES-256-GCM") _ _ (omega arith, refl, omega arith)
        (if-Row (n == "AEAD_AES_192_GCM" || n == "AES-192-GCM") _ _ (omega arith, refl, omega arith)
          (if-Row (n == "AEAD_AES_128_GCM" || n == "AES-128-GCM") _ _
            (omega arith, refl, omega arith) refl)))

-- What NewEncryptionKey gives.
abbrev pub Keyed : (Bytes → Bytes) → Bytes → Option (Fallible EncryptionKey) → Type 0
Keyed md5 secret_text r =
    (r ≡ some (inl err_unsupported_cipher))
    ⊎ ((key : EncryptionKey) × (r ≡ some (inr key))
        × ((n : ℕ) × (key.secret ≡ take key.cipher.key_size (blocks md5 secret_text n [])))
        × (length key.secret ≡ key.cipher.key_size)
        × (key.cipher.salt_size ≡ key.cipher.key_size)
        × (key.cipher.tag_size ≡ 16)
        × (16 ≤ key.cipher.key_size))

key_for-Keyed :
    (md5 : Bytes → Bytes) (secret_text : Bytes) (r : Fallible CipherSpec)
    → ((p : Bytes) → 0 < length (md5 p))
    → Row r
    → Keyed md5 secret_text (key_for md5 secret_text r)
key_for-Keyed md5 text (inl e) full row = inl (ap (λ x. some (inl x)) row)
key_for-Keyed md5 text (inr s) full (salt, tag, least) =
    let (n, e, le) = simple_evp_bytes_to_key-blocks md5 text s.key_size full in
    inr (
      record { cipher = s; secret = take s.key_size (blocks md5 text n []) },
      ap (key_with s) e,
      (n, refl),
      omega (arith, length-take s.key_size (blocks md5 text n [])),
      salt,
      tag,
      least,
    )

-- NewEncryptionKey ends for every name and secret, if no hash is empty: with ErrUnsupportedCipher, or
-- with a key whose secret is the first bytes of the hash blocks of the text, as many as the cipher asks
-- for, at least 16, and as many as the salt has, and whose tag has 16 bytes.
pub new_encryption_key-Keyed :
    (c : Ciphers) (md5 : Bytes → Bytes) (cipher_name : String) (secret_text : Bytes)
    → ((p : Bytes) → 0 < length (md5 p))
    → Keyed md5 secret_text (new_encryption_key c md5 cipher_name secret_text)
unfolding new_encryption_key
new_encryption_key-Keyed c md5 name text full =
    key_for-Keyed md5 text (cipher_by_name c name) full (cipher_by_name-Row c name)
