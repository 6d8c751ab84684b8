-- ===== src/Shadowsocks/Cipher/Derive.antt =====
-- The derivation of a key of any length from the text of a secret.
use bfx_outline_sdk.Prelude.{
  sym, append-nil, inr, subst, ◌∙◌, ap, append_assoc, length-append, inl, ltb, Bool-cases,
  if◌then◌else◌, Bool, ◌≤◌, take, ◌-◌, length, arith, ◌≡◌, ℕ, Option, some, [], zero, suc, ◌++◌,
  ◌<◌,
}
use bfx_outline_sdk.Io.{Bytes}
use bfx_outline_sdk.Shadowsocks.Cipher.{evp_loop, simple_evp_bytes_to_key}

-- The blocks of the hash: each is the hash of the one before it and the text.
abbrev pub blocks : (Bytes → Bytes) → Bytes → ℕ → Bytes → Bytes
blocks md5 text zero di = []
blocks md5 text (suc n) di = md5 (di ++ text) ++ blocks md5 text n (md5 (di ++ text))

module _ (md5 : Bytes → Bytes) (text : Bytes) (key_len : ℕ) where
  evp_loop_lem :
      ((p : Bytes) → 0 < length (md5 p))
      → (fuel : ℕ) (derived di : Bytes) → key_len - length derived < fuel
      → (n : ℕ) × (evp_loop md5 fuel text key_len derived di
          ≡ some (take key_len (derived ++ blocks md5 text n di)))
        × (key_len ≤ length (derived ++ blocks md5 text n di))
  unfolding evp_loop
  evp_loop_lem full zero derived di h = absurd (omega arith)
  evp_loop_lem full (suc fuel) derived di h =
      let di' = md5 (di ++ text) in
      let branch : Bool → Option Bytes = λ b.
        if b
        then evp_loop md5 fuel text key_len (derived ++ di') di'
        else some (take key_len derived) in
      elim (Bool-cases (ltb (length derived) key_len)) [
        | inl e ↦
            let (n, eq, le) =
              evp_loop_lem full fuel (derived ++ di') di'
                (ground (arith, full (di ++ text), length-append derived di')) in
            let assoc = append_assoc derived di' (blocks md5 text n di') in
            (
              suc n,
              ap branch e ∙ eq ∙ ap (λ xs. some (take key_len xs)) assoc,
              subst (λ xs. key_len ≤ length xs) assoc le,
            )
        | inr e ↦
            let same = append-nil derived in
            (
              0,
              ap branch e ∙ ap (λ xs. some (take key_len xs)) (sym same),
              subst (λ xs. key_len ≤ length xs) (sym same) (ground arith),
            )
      ]

  -- The key is the first bytes of enough blocks, if no hash is empty.
  pub simple_evp_bytes_to_key-blocks :
      ((p : Bytes) → 0 < length (md5 p))
      → (n : ℕ) × (simple_evp_bytes_to_key md5 text key_len
          ≡ some (take key_len (blocks md5 text n [])))
        × (key_len ≤ length (blocks md5 text n []))
  unfolding simple_evp_bytes_to_key
  simple_evp_bytes_to_key-blocks full = evp_loop_lem full (suc key_len) [] [] (omega arith)
