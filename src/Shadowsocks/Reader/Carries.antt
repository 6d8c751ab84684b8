-- ===== src/Shadowsocks/Reader/Carries.antt =====
-- readConverter as a byte stream: Read gives the plaintext of the chunks in order, cut up in other
-- ways, and io.EOF behind it.
use bfx_outline_sdk.Prelude.{
  List-cases, length-nil, length-take, subst, ℕ, ◌≡◌, ◌++◌, none, some, [], length, arith, refl,
  sym, ap, ◌∙◌, List, All, ◌≤◌, ◌<◌, inr, inl, flatten, ◌⊎◌, take, drop, Bool-cases, Bool, ltb,
  if◌then◌else◌, append_assoc, take-append-drop,
}
use bfx_outline_sdk.Io.{Bytes, Fallible, Fault, eof}
use bfx_outline_sdk.Shadowsocks.Cipher.{Aead}
use bfx_outline_sdk.Shadowsocks.Writer.Sends.{ChunkSize}
use bfx_outline_sdk.Shadowsocks.Reader.{
  ReadConverter, new_leftover, read_leftover, read_chunk, ensure_leftover, read,
}
use bfx_outline_sdk.Shadowsocks.Reader.Upcoming.{
  SessionKey, Upcoming, read_chunk-next, read_chunk-last,
}

module _ (salt : Bytes) (aead : Aead) where
  -- The plaintext `p` is still to come: what is left of a chunk, and whole chunks.
  pub record Carries (p : Bytes) (c : ReadConverter) : Type 0 where
    pub chunks : List Bytes
    pub sizes : All ChunkSize chunks
    pub upcoming : Upcoming salt aead chunks c.cr
    pub plaintext : c.leftover ++ flatten chunks ≡ p

  -- Bytes are at hand, or there is nothing left and io.EOF says so.
  abbrev pub Ensured : Bytes → ReadConverter × Fault → Type 0
  Ensured p r =
      (c : ReadConverter) × Carries p c
      × (((r ≡ (c, none)) × (0 < length c.leftover)) ⊎ ((r ≡ (c, some eof)) × (p ≡ [])))

  module _ (new_aead : Bytes → Fallible Aead) (salt_size : ℕ) where
    -- Nothing is left of the last chunk.
    next_chunk-Ensured :
        (p : Bytes) (c : ReadConverter)
        → SessionKey new_aead salt_size salt aead
        → Carries p c
        → c.leftover ≡ []
        → Ensured p (new_leftover c (read_chunk new_aead salt_size c.cr))
    next_chunk-Ensured p c k h empty =
        let all : flatten h.chunks ≡ p =
          sym (ap (λ l. l ++ flatten h.chunks) empty) ∙ h.plaintext in
        elim (List-cases h.chunks) [
          | inl e ↦
              let (cr, r, up) =
                read_chunk-last salt aead new_aead salt_size c.cr k
                  (subst (λ ps. Upcoming salt aead ps c.cr) e h.upcoming) in
              let nothing : [] ≡ p = ap flatten (sym e) ∙ all in
              (
                record { cr = cr; leftover = [] },
                record { chunks = []; sizes = tt; upcoming = up; plaintext = nothing },
                inr (ap (new_leftover c) r, sym nothing),
              )
          | inr (q, qs, e) ↦
              let sizes = subst (All ChunkSize) e h.sizes in
              let (cr, r, up) =
                read_chunk-next salt aead new_aead salt_size q qs c.cr k sizes.0
                  (subst (λ ps. Upcoming salt aead ps c.cr) e h.upcoming) in
              (
                record { cr = cr; leftover = q },
                record {
                  chunks = qs;
                  sizes = sizes.1;
                  upcoming = up;
                  plaintext = ap flatten (sym e) ∙ all;
                },
                inl (ap (new_leftover c) r, sizes.0.0),
              )
        ]

    pub ensure_leftover-Ensured :
        (p : Bytes) (c : ReadConverter)
        → SessionKey new_aead salt_size salt aead
        → Carries p c
        → Ensured p (ensure_leftover new_aead salt_size c)
    unfolding ensure_leftover
    ensure_leftover-Ensured p c k h =
        let branch : Bool → ReadConverter × Fault =
          λ b. if b then (c, none) else new_leftover c (read_chunk new_aead salt_size c.cr) in
        elim (Bool-cases (ltb 0 (length c.leftover))) [
          | inl e ↦ (c, h, inl (ap branch e, ground arith))
          | inr e ↦
              subst (Ensured p) (sym (ap branch e))
                (next_chunk-Ensured p c k h (length-nil c.leftover (ground arith)))
        ]

    -- The first bytes at hand are taken.
    pub Carries-drop :
        (p : Bytes) (c : ReadConverter) (n : ℕ)
        → Carries p c
        → (rest : Bytes) × (p ≡ take n c.leftover ++ rest)
          × Carries rest (record c { leftover = drop n c.leftover })
    Carries-drop p c n h = (
      drop n c.leftover ++ flatten h.chunks,
      sym h.plaintext
          ∙ ap (λ l. l ++ flatten h.chunks) (sym (take-append-drop n c.leftover))
          ∙ append_assoc (take n c.leftover) (drop n c.leftover) (flatten h.chunks),
      record { chunks = h.chunks; sizes = h.sizes; upcoming = h.upcoming; plaintext = refl },
    )

    -- What Read into a buffer of `n` bytes gives when the plaintext `p` is to come.
    abbrev pub ReadsStream : Bytes → ℕ → ReadConverter × Bytes × Fault → Type 0
    ReadsStream p n r =
        ((c : ReadConverter) × (r ≡ (c, [], some eof)) × (p ≡ []) × Carries [] c)
        ⊎ ((c : ReadConverter) × (x : Bytes) × (rest : Bytes) × (r ≡ (c, x, none))
            × (0 < length x)
            × (length x ≤ n)
            × (p ≡ x ++ rest)
            × Carries rest c)

    -- When the plaintext `p` is to come, Read into a buffer that is not empty gives some first bytes of
    -- it without an error and leaves the rest to come, or io.EOF if `p` is empty.
    pub read-ReadsStream :
        (p : Bytes) (c : ReadConverter) (n : ℕ)
        → SessionKey new_aead salt_size salt aead
        → 0 < n
        → Carries p c
        → ReadsStream p n (read new_aead salt_size n c)
    unfolding read
    read-ReadsStream p c n k pos h =
        let (c', h', r) = ensure_leftover-Ensured p c k h in
        elim r [
          | inr (e, empty) ↦
              inl (c', ap (read_leftover n) e, empty, subst (λ q. Carries q c') empty h')
          | inl (e, some_left) ↦
              let (rest, split, left) = Carries-drop p c' n h' in
              let len = length-take n c'.leftover in
              inr (
                record c' { leftover = drop n c'.leftover },
                take n c'.leftover,
                rest,
                ap (read_leftover n) e,
                omega (arith, len),
                omega (arith, len),
                split,
                left,
              )
        ]
