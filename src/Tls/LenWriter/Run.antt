-- ===== src/Tls/LenWriter/Run.antt =====
-- recordLenFragWriter over all its Writes.
use bfx_outline_sdk.Prelude.{
  true, ltb, drop, take, ◌-◌, ℕ, ◌+◌, ◌≡◌, none, Bool, [], ◌∷◌, ◌++◌, length, refl, sym, ap, ap₂,
  ◌∙◌, arith, inl, inr, flatten, append-nil, append_assoc, subst, List, if◌then◌else◌,
}
use bfx_outline_sdk.Prelude.Int.{ℤ}
use bfx_outline_sdk.Io.{Bytes, Fault, Writer, Wire}
use bfx_outline_sdk.Tls.Header.{put_uint16, payload_len}
use bfx_outline_sdk.Tls.LenWriter.{
  LenWriter, new_len_writer, write_tail, write_first, write_header, write,
}
use bfx_outline_sdk.Tls.LenWriter.Reliable.{Reliable}
use bfx_outline_sdk.Tls.LenWriter.Tail.{write_tail-Passes}
use bfx_outline_sdk.Tls.LenWriter.First.{first_state}
use bfx_outline_sdk.Tls.LenWriter.Emits.{emitted_short, emitted_cut, emitted}
use bfx_outline_sdk.Tls.LenWriter.Invariant.{emitted-IsCut, cut_of, Takes, Inv}
use bfx_outline_sdk.Tls.LenWriter.Step.{write_first-Takes}
use bfx_outline_sdk.Tls.LenWriter.Start.{Collecting-Takes}

-- A new writer is given the slices `ps`, one Write for each: the state afterwards, and the counts and
-- errors that the Writes return.
unfoldable pub writes :
    {w : Writer} → (ℕ → ℤ) → LenWriter w → List Bytes → LenWriter w × List (ℕ × Fault)
writes frag s [] = (s, [])
writes {w} frag s (p ∷ ps) =
    let (s', n, err) = write w frag s p in
    let (s'', answers) = writes frag s' ps in (s'', (n, err) ∷ answers)

-- Each slice is taken as a whole.
abbrev pub all_taken : List Bytes → List (ℕ × Fault)
all_taken [] = []
all_taken (p ∷ ps) = (length p, none) ∷ all_taken ps

module _ {w : Writer} (frag : ℕ → ℤ) (before : Bytes) where
  pub write-Takes :
      Reliable w
      → (s : LenWriter w) (t p : Bytes) → Inv frag before t s
      → Takes frag before (t ++ p) (length p) (write w frag s p)
  unfolding write new_len_writer
  write-Takes ok s t p (inl h) =
      subst (λ s. Takes frag before (t ++ p) (length p) (write w frag s p)) (sym h.is)
        (Collecting-Takes frag before ok h.wire t p h.short h.sent)
  write-Takes ok s t p (inr (inl h)) =
      let split : t ++ p ≡ h.header ++ (h.payload ++ p) =
        ap (λ u. u ++ p) h.split ∙ append_assoc h.header h.payload p in
      let f : LenWriter w =
        first_state h.wire h.header (cut_of frag h.header) (payload_len h.header)
          (5 + length h.payload) in
      let x =
        write_first-Takes frag before ok h.wire h.header h.payload p (5 + length h.payload) 0
          h.is_cut (inr (refl, h.part, h.sent)) in
      subst (λ s. Takes frag before (t ++ p) (length p) (write w frag s p)) (sym h.is)
        (subst (λ u. Takes frag before u (length p) (write w frag f p)) (sym split)
          (x.0, x.1 ∙ ap (λ m. (x.0, m, none)) (omega arith), x.2))
  write-Takes ok s t p (inr (inr h)) =
      let branch : Bool → LenWriter w × ℕ × Fault = λ b.
        if b
        then write_tail w s p 0
        else if s.has_tls_hdr
        then write_first w s p 0
        else write_header w frag s p in
      let x = write_tail-Passes ok s p 0 (omega (arith, ap length h.no_header)) in
      (
        x.after,
        ap branch h.done ∙ x.result ∙ ap (λ m. (x.after, m, none)) (omega arith),
        inr (
            inr (record {
              done = x.done_after ∙ h.done;
              no_header = x.no_header;
              sent =
                  x.got
                  ∙ ap₂ (λ u v. u ++ (v ++ p)) h.sent h.no_header
                  ∙ append_assoc before (emitted frag t) p
                  ∙ ap (◌++◌ before) (sym (h.through p));
              through = λ y.
                  ap (emitted frag) (append_assoc t p y)
                  ∙ h.through (p ++ y)
                  ∙ sym (append_assoc (emitted frag t) p y)
                  ∙ ap (λ u. u ++ y) (sym (h.through p));
            })),
      )

  writes-Inv :
      Reliable w
      → (s : LenWriter w) (t : Bytes) (ps : List Bytes) → Inv frag before t s
      → (s' : LenWriter w) × (writes frag s ps ≡ (s', all_taken ps))
        × Inv frag before (t ++ flatten ps) s'
  unfolding writes
  writes-Inv ok s t [] h = (s, refl, subst (λ u. Inv frag before u s) (sym (append-nil t)) h)
  writes-Inv ok s t (p ∷ ps) h =
      let (s1, run, h1) = write-Takes ok s t p h in
      let (s2, runs, h2) = writes-Inv ok s1 (t ++ p) ps h1 in
      let next : LenWriter w × ℕ × Fault → LenWriter w × List (ℕ × Fault) = λ r.
        let more : LenWriter w × List (ℕ × Fault) = writes frag r.0 ps in
        (more.0, (r.1, r.2) ∷ more.1) in
      (
        s2,
        ap next run ∙ ap (λ r. (r.0, (length p, none) ∷ r.1)) runs,
        subst (λ u. Inv frag before u s2) (append_assoc t p (flatten ps)) h2,
      )

  Inv-sent :
      (s : LenWriter w) (t : Bytes)
      → Inv frag before t s
      → flatten s.base.sent ≡ before ++ emitted frag t
  unfolding new_len_writer emitted_cut
  Inv-sent s t (inl h) =
      ap (λ s. flatten s.base.sent) h.is
      ∙ h.sent
      ∙ sym (append-nil before)
      ∙ ap (◌++◌ before) (sym (emitted_short frag t h.short))
  Inv-sent s t (inr (inl h)) =
      let k = cut_of frag h.header in
      let first = put_uint16 h.header 3 k in
      let second = put_uint16 h.header 3 (payload_len h.header - k) in
      let branch : Bool → Bytes = λ b.
        if b
        then first ++ h.payload
        else (first ++ take k h.payload) ++ (second ++ drop k h.payload) in
      let on : ltb (length h.payload) k ≡ true = ground (arith, h.part) in
      ap (λ s. flatten s.base.sent) h.is
      ∙ h.sent
      ∙ ap (◌++◌ before) (
          sym (
            ap (emitted frag) h.split
            ∙ emitted-IsCut frag h.header h.payload h.is_cut
            ∙ ap branch on))
  Inv-sent s t (inr (inr h)) = h.sent

-- Over a base writer that does not fail, a new writer that is given any slices takes each of them as
-- a whole, and has sent what `emitted` says of the bytes so far.
pub writes-emitted :
    {w : Writer} (frag : ℕ → ℤ) (c : Wire w) (ps : List Bytes)
    → Reliable w
    → (s : LenWriter w) × (writes frag (new_len_writer w c) ps ≡ (s, all_taken ps))
      × (flatten s.base.sent ≡ flatten c.sent ++ emitted frag (flatten ps))
unfolding new_len_writer
writes-emitted {w} frag c ps ok =
    let start : Inv frag (flatten c.sent) [] (new_len_writer w c) =
      inl (record { wire = c; is = refl; short = omega arith; sent = refl }) in
    let (s, run, h) = writes-Inv frag (flatten c.sent) ok (new_len_writer w c) [] ps start in
    (s, run, Inv-sent frag (flatten c.sent) s (flatten ps) h)
