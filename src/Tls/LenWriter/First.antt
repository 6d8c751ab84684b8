-- ===== src/Tls/LenWriter/First.antt =====
-- The first record: its header and as much of its payload as has come.
use bfx_outline_sdk.Prelude.{
  ◌||◌, ◌^◌, ◌%◌, ℕ, ◌+◌, ◌-◌, ◌≡◌, ◌≤◌, ◌<◌, none, some, Bool, [], ◌∷◌, ◌++◌, ◌==◌, if◌then◌else◌,
  length, take, drop, refl, sym, ap, ap₂, ◌∙◌, arith, inl, inr, flatten, append_assoc,
  length-append, ◌⊎◌, ltb, true, false,
}
use bfx_outline_sdk.Io.{message, Bytes, Fault, Writer, Wire}
use bfx_outline_sdk.Tls.Header.{
  max_record_payload_len, put_uint16, set_payload_len, record_header_len,
}
use bfx_outline_sdk.Tls.LenWriter.{LenWriter, write_n, write_both_n, write_record}
use bfx_outline_sdk.Tls.LenWriter.Reliable.{Reliable, write_both_n-Got, write_n-Got}

pub length-put_uint16 : (h : Bytes) (v : ℕ) → length h ≡ 5 → length (put_uint16 h 3 v) ≡ 5
length-put_uint16 [] v len = absurd (omega arith)
length-put_uint16 (a ∷ []) v len = absurd (omega arith)
length-put_uint16 (a ∷ b ∷ []) v len = absurd (omega arith)
length-put_uint16 (a ∷ b ∷ c ∷ []) v len = absurd (omega arith)
length-put_uint16 (a ∷ b ∷ c ∷ d ∷ []) v len = absurd (omega arith)
length-put_uint16 (a ∷ b ∷ c ∷ d ∷ e ∷ h) v len = len

pub put-put_uint16 :
    (h : Bytes) (u v : ℕ) → length h ≡ 5 → put_uint16 (put_uint16 h 3 u) 3 v ≡ put_uint16 h 3 v
put-put_uint16 [] u v len = absurd (omega arith)
put-put_uint16 (a ∷ []) u v len = absurd (omega arith)
put-put_uint16 (a ∷ b ∷ []) u v len = absurd (omega arith)
put-put_uint16 (a ∷ b ∷ c ∷ []) u v len = absurd (omega arith)
put-put_uint16 (a ∷ b ∷ c ∷ d ∷ []) u v len = absurd (omega arith)
put-put_uint16 (a ∷ b ∷ c ∷ d ∷ e ∷ h) u v len = refl

-- A length in the range of a record is set as it is.
pub set_payload_len-put :
    (h : Bytes) (n : ℕ) → 0 < n → n ≤ 16384 → (set_payload_len h (n % 2 ^ 16)).0 ≡ put_uint16 h 3 n
unfolding set_payload_len
set_payload_len-put h n pos le =
    let same : n % 2 ^ 16 ≡ n = omega arith in
    let branch : Bool → Bytes × Fault = λ b.
      if b
      then (h, some (message "record length out of range"))
      else (put_uint16 h 3 (n % 2 ^ 16), none) in
    let off : (n % 2 ^ 16 == 0 || ltb max_record_payload_len (n % 2 ^ 16)) ≡ false =
      ground (arith, same) in
    ap (λ b. (branch b).0) off ∙ ap (put_uint16 h 3) same

module _ {w : Writer} where
  -- The writer with the header of the first record: the payload of `total` bytes is cut at `k`, and
  -- `written` bytes of the first record are on the wire.
  abbrev pub first_state : Wire w → Bytes → ℕ → ℕ → ℕ → LenWriter w
  first_state c h k total written = record {
    base = c;
    done = false;
    hdr = put_uint16 h 3 k;
    has_tls_hdr = true;
    r1_size = k + record_header_len;
    r1_written = written;
    r2_size = total - k + record_header_len;
  }

  -- Of the first record the header with the payload `q` is on the wire, or nothing yet.
  abbrev pub Progress : Bytes → Wire w → Bytes → ℕ → ℕ → Bytes → Type 0
  Progress before c h k written q =
      ((written ≡ 0) × (q ≡ []) × (flatten c.sent ≡ before))
      ⊎ ((written ≡ 5 + length q)
          × (length q < k)
          × (flatten c.sent ≡ before ++ (put_uint16 h 3 k ++ q)))

  -- A Write adds what of `p` belongs to the first record.
  abbrev pub Adds : Bytes → Bytes → ℕ → ℕ → Bytes → Bytes → LenWriter w × ℕ × Fault → Type 0
  Adds before h k total q p r =
      let p' : Bytes = take (k - length q) p in
      (c : Wire w) × (r ≡ (first_state c h k total (5 + length (q ++ p')), length p', none))
      × (flatten c.sent ≡ before ++ (put_uint16 h 3 k ++ (q ++ p')))

  pub write_record-Adds :
      Reliable w
      → (before : Bytes) (c : Wire w) (h : Bytes) (k total written : ℕ) (q p : Bytes) → length h ≡ 5
      → 0 < k
      → Progress before c h k written q
      → Adds before h k total q p (write_record w (first_state c h k total written) p)
  unfolding write_record
  write_record-Adds ok before c h k total written q p len pos (inl (start, empty, sent)) =
      let hdr = put_uint16 h 3 k in
      let five = length-put_uint16 h k len in
      let (c', run, got) = write_both_n-Got ok c hdr p (k + 5) (omega (arith, five)) in
      let limit : k + 5 - length hdr ≡ k - length q = omega (arith, five, ap length empty) in
      let p' = take (k - length q) p in
      let result : Wire w × ℕ × ℕ × Fault → LenWriter w × ℕ × Fault =
        λ r. (first_state r.0 h k total (0 + (r.1 + r.2)), r.2, r.3) in
      (
        c',
        ap (λ v. write_record w (first_state c h k total v) p) start
            ∙ ap result run
            ∙ ap
                (λ n. (
                  first_state c' h k total (0 + (length hdr + length (take n p))),
                  length (take n p),
                  none,
                ))
                limit
            ∙ ap (λ n. (first_state c' h k total n, length p', none))
                (omega (arith, five, length-append q p', ap length empty)),
        got
            ∙ ap₂ (λ s n. s ++ (hdr ++ take n p)) sent limit
            ∙ ap (λ x. before ++ (hdr ++ (x ++ p'))) (sym empty),
      )
  write_record-Adds ok before c h k total written q p len pos (inr (at, lt, sent)) =
      let hdr = put_uint16 h 3 k in
      let limit : k + 5 - written ≡ k - length q = omega (arith, at) in
      let (c', run, got) = write_n-Got ok c p (k + 5 - written) (omega (arith, at)) in
      let p' = take (k - length q) p in
      let result : Wire w × ℕ × Fault → LenWriter w × ℕ × Fault =
        λ r. (first_state r.0 h k total (written + r.1), r.1, r.2) in
      let both = write_both_n w c (drop written hdr) p (k + 5) in
      let branch : Bool → LenWriter w × ℕ × Fault = λ b.
        if b
        then (first_state both.0 h k total (written + (both.1 + both.2)), both.2, both.3)
        else result (write_n w c p (k + 5 - written)) in
      let off : ltb written 5 ≡ false = ground (arith, at) in
      (
        c',
        ap branch off
            ∙ ap result run
            ∙ ap
                (λ n.
                  (first_state c' h k total (written + length (take n p)), length (take n p), none))
                limit
            ∙ ap (λ n. (first_state c' h k total n, length p', none))
                (omega (arith, at, length-append q p')),
        got
            ∙ ap₂ (λ s n. s ++ take n p) sent limit
            ∙ append_assoc before (hdr ++ q) p'
            ∙ ap (◌++◌ before) (append_assoc hdr q p'),
      )
