-- ===== src/Shadowsocks/Writer/Write.antt =====
-- Write of the Shadowsocks writer: without an error, the whole slice is sent.
use bfx_outline_sdk.Prelude.{
  ℕ, zero, suc, ◌+◌, ◌≡◌, ◌≤◌, Bool, Bool-cases, true, false, none, some, Option, Option-cases,
  refl, sym, ap, ◌∙◌, [], ◌∷◌, ◌++◌, arith, length, subst, length-append, if◌then◌else◌, ltb, take,
  drop, length-drop, append-nil, ◌≢◌, inl, inr, ◌-◌,
}
use bfx_outline_sdk.Io.{Bytes, GoError, Fault, Writer, eof}
use bfx_outline_sdk.Io.Source.{Source, read, unread, bytes_reader}
use bfx_outline_sdk.Io.Source.Full.{Smooth, bytes_reader-Smooth, unread-bytes_reader}
use bfx_outline_sdk.Shadowsocks.Cipher.{Aead}
use bfx_outline_sdk.Shadowsocks.Writer.{
  Session, payload_size_mask, flush, flush_lazy, enqueue, transfer, first_read, read_from,
  read_from_result, or_flush, write,
}
use bfx_outline_sdk.Shadowsocks.Writer.Sends.{Sends}
use bfx_outline_sdk.Shadowsocks.Writer.Transfer.{NoEof, flush-not_eof}
use bfx_outline_sdk.Shadowsocks.Writer.Input.{Ready}
use bfx_outline_sdk.Shadowsocks.Writer.ReadFrom.{no_error, read_from-Reads}

-- io.EOF is answered only at the end, and what is left is as before.
abbrev AtEnd : Fault → Source → Type 0
AtEnd err src = Smooth src × (err ≡ some eof → unread src ≡ [])

read-AtEnd : (n : ℕ) (src : Source) → Smooth src → AtEnd (read n src).1 (read n src).2
unfolding read
read-AtEnd n [] h = (tt, λ e. refl)
read-AtEnd n ((c, some err) ∷ r) (hc, he, hr) = absurd (cc he)
read-AtEnd n ((c, none) ∷ r) (hc, he, hr) =
    let branch : Bool → Bytes × Fault × Source =
      λ b. if b then (take n c, none, (drop n c, none) ∷ r) else (c, none, r) in
    let P : Bytes × Fault × Source → Type 0 = λ x. AtEnd x.1 x.2 in
    elim (Bool-cases (ltb n (length c))) [
      | inl e ↦
          subst P (sym (ap branch e))
            ((ground (arith, length-drop n c), refl, hr), λ z. absurd (cc z))
      | inr e ↦ subst P (sym (ap branch e)) (hr, λ z. absurd (cc z))
    ]

module _ (w : Writer) (salt : Bytes) (aead : Aead) where
  or_flush-AtEnd :
      (a b : Fault) (src : Source)
      → b ≢ some eof
      → AtEnd a src
      → AtEnd (or_flush w salt aead a b) src
  or_flush-AtEnd a none src h k = k
  or_flush-AtEnd a (some e) src h (smooth, k) = (smooth, λ z. absurd (h z))

  abbrev EndsWhole : Option (Session w × ℕ × GoError × Source) → Type 0
  EndsWhole none = Unit {0}
  EndsWhole (some r) = r.2 ≡ eof → unread r.3 ≡ []

  transfer-EndsWhole :
      NoEof w
      → (fuel : ℕ) (s : Session w) (written : ℕ) (err : Fault) (src : Source) → AtEnd err src
      → EndsWhole (transfer w salt aead fuel s written err src)
  unfolding transfer
  transfer-EndsWhole honest fuel s written (some e) src (smooth, h) = λ z. h (ap some z)
  transfer-EndsWhole honest zero s written none src h = tt
  transfer-EndsWhole honest (suc fuel) s written none src (smooth, h) =
      let c = (read payload_size_mask src).0 in
      let s1 : Session w = record s { pending = c } in
      transfer-EndsWhole honest fuel (flush w salt aead s1).0 (written + length c)
        (or_flush w salt aead (read payload_size_mask src).1 (flush w salt aead s1).1)
        (read payload_size_mask src).2
        (or_flush-AtEnd (read payload_size_mask src).1 (flush w salt aead s1).1
          (read payload_size_mask src).2 (flush-not_eof w salt aead honest s1)
          (read-AtEnd payload_size_mask src smooth))

  first-AtEnd :
      NoEof w
      → (need meanwhile : Bool) (s : Session w) (src : Source) → Smooth src
      → let r : Session w × ℕ × Fault × Source =
          if need then first_read w salt aead meanwhile s src else (s, 0, none, src) in
        AtEnd r.2 r.3
  unfolding first_read
  first-AtEnd honest false meanwhile s src h = (h, λ z. absurd (cc z))
  first-AtEnd honest true meanwhile s src h =
      let size = payload_size_mask - length s.pending in
      let s1 = if meanwhile then (flush_lazy w salt aead s).0 else s in
      let s2 = (enqueue w salt aead s1 (read size src).0).0 in
      or_flush-AtEnd (read size src).1 (flush w salt aead s2).1 (read size src).2
        (flush-not_eof w salt aead honest s2) (read-AtEnd size src h)

  abbrev ReadsWhole : Option (Session w × ℕ × Fault × Source) → Type 0
  ReadsWhole none = Unit {0}
  ReadsWhole (some r) = r.2 ≡ none → unread r.3 ≡ []

  read_from-ReadsWhole :
      NoEof w
      → (meanwhile : Bool) (s : Session w) (src : Source) → Smooth src
      → ReadsWhole (read_from w salt aead meanwhile s src)
  unfolding read_from
  read_from-ReadsWhole honest meanwhile s src h =
      let r : Session w × ℕ × Fault × Source =
        if s.need_flush then first_read w salt aead meanwhile s src else (s, 0, none, src) in
      let t = transfer w salt aead (suc (length (unread src) + length src)) r.0 r.1 r.2 r.3 in
      let ends =
        transfer-EndsWhole honest (suc (length (unread src) + length src)) r.0 r.1 r.2 r.3
          (first-AtEnd honest s.need_flush meanwhile s src h) in
      let result : Option (Session w × ℕ × GoError × Source)
          → Option (Session w × ℕ × Fault × Source) =
        λ o. elim o [ none ↦ none | some x ↦ some (read_from_result w salt aead x) ] in
      elim (Option-cases t) [
        | inl e ↦ subst ReadsWhole (sym (ap result e)) tt
        | inr (x, e) ↦
            subst ReadsWhole (sym (ap result e))
              (λ z. subst EndsWhole e ends (no_error w salt aead x.2 z))
      ]

  -- What Write has done: it took `n` bytes, and all of the slice and what was pending is sent if
  -- there is no error.
  pub record Writes (s : Session w) (p : Bytes) (s' : Session w) (n : ℕ) (err : Fault)
      : Type 0 where
    pub count-le : n ≤ length p
    pub empties : s'.pending ≡ []
    pub whole : err ≡ none → (n ≡ length p) × Sends salt aead s s' p

  -- From any state with at most a payload pending, and none if no flush is due, over a base writer
  -- that does not answer io.EOF, and with a Flush of another thread in between that succeeds, Write
  -- returns. It takes at most the slice and leaves nothing pending, and without an error the whole
  -- slice and all that was pending before are sent.
  pub write-Writes :
      NoEof w
      → (meanwhile : Bool) (s : Session w) (p : Bytes) → Ready s
      → (meanwhile ≡ true → (flush_lazy w salt aead s).1 ≡ none)
      → (s' : Session w) × (n : ℕ) × (err : Fault) × (write w salt aead meanwhile s p
          ≡ some (s', n, err))
        × Writes s p s' n err
  unfolding write
  write-Writes honest meanwhile s p ready k =
      let src = bytes_reader p in
      let (s', n, err, src', eq, h) = read_from-Reads w salt aead honest meanwhile s src ready k in
      let whole : err ≡ none → unread src' ≡ [] =
        subst ReadsWhole eq (read_from-ReadsWhole honest meanwhile s src (bytes_reader-Smooth p)) in
      let all : h.taken ++ unread src' ≡ p = h.taken-unread ∙ unread-bytes_reader p in
      let size = length-append h.taken (unread src') in
      let taken : err ≡ none → h.taken ≡ p =
        λ z. sym (append-nil h.taken) ∙ ap (◌++◌ h.taken) (sym (whole z)) ∙ all in
      let result : Option (Session w × ℕ × Fault × Source) → Option (Session w × ℕ × Fault) =
        λ o. elim o [ none ↦ none | some (s', n, err, src') ↦ some (s', n, err) ] in
      (
        s',
        n,
        err,
        ap result eq,
        record {
          count-le = omega (arith, size, ap length all, h.count);
          empties = h.empties;
          whole = λ z. (
            sym h.count ∙ ap length (taken z),
            subst (Sends salt aead s s') (taken z) (h.complete z),
          );
        },
      )
