-- ===== src/Tls/LenWriter/Agree.antt =====
-- recordLenFragWriter sends the records that the specification of the writer of writer.go asks for.
use bfx_outline_sdk.Prelude.{
  ℕ, ◌-◌, ◌≡◌, ◌≤◌, Bool, Bool-cases, ◌++◌, ◌||◌, length, take, drop, refl, sym, ap, ap₂, ◌∙◌,
  arith, inl, inr, flatten, append_assoc, ◌⊎◌, List, if◌then◌else◌, true, false, ltb,
  take-append-drop, length-take, length-drop,
}
use bfx_outline_sdk.Prelude.Int.{ℤ, pos, pos_part, leb_ℤ}
use bfx_outline_sdk.Io.{Bytes, Fault, Writer, Wire, is_some}
use bfx_outline_sdk.Tls.Header.{payload_len, put_uint16, validate}
use bfx_outline_sdk.Tls.Fragment.{
  fragment, IsHello, IsInvalid, split_at, two_records, fragment-IsHello, fragment-IsInvalid,
}
use bfx_outline_sdk.Tls.LenWriter.{LenWriter, new_len_writer}
use bfx_outline_sdk.Tls.LenWriter.Reliable.{Reliable}
use bfx_outline_sdk.Tls.LenWriter.Emits.{
  emitted, emitted_behind, emitted_cut, emitted_long, emitted_cut-append, no_cut,
}
use bfx_outline_sdk.Tls.LenWriter.Invariant.{cut_of}
use bfx_outline_sdk.Tls.LenWriter.Start.{no_cut-range}
use bfx_outline_sdk.Tls.LenWriter.Run.{writes, all_taken, writes-emitted}

-- The payload as far as frag of the length is concerned.
abbrev pub by_length : (ℕ → ℤ) → Bytes → ℤ
by_length frag payload = frag (length payload)

emitted_cut-two_records :
    (h q : Bytes) (k : ℕ) (s : Bytes)
    → take 5 s ≡ h
    → drop 5 s ≡ q
    → length q ≡ payload_len h
    → k ≤ length q
    → emitted_cut h k q ≡ two_records s k
unfolding emitted_cut two_records
emitted_cut-two_records h q k s front back len le =
    let first = put_uint16 h 3 k in
    let branch : Bool → Bytes = λ b.
      if b
      then first ++ q
      else (first ++ take k q) ++ (put_uint16 h 3 (payload_len h - k) ++ drop k q) in
    let off : ltb (length q) k ≡ false = ground arith in
    ap branch off
    ∙ ap (λ n. (first ++ take k q) ++ (put_uint16 h 3 (n - k) ++ drop k q)) (sym len)
    ∙ ap₂ (λ h q. (put_uint16 h 3 k ++ take k q) ++ (put_uint16 h 3 (length q - k) ++ drop k q))
        (sym front) (sym back)

module _ (frag : ℕ → ℤ) where
  uncut :
      (h q : Bytes) → length h ≡ 5 → is_some (validate h) ≡ true → emitted frag (h ++ q) ≡ h ++ q
  unfolding emitted_behind
  uncut h q len v =
      let branch : Bool → Bytes = λ b.
        if b then h ++ q else if no_cut frag h then h ++ q else emitted_cut h (cut_of frag h) q in
      emitted_long frag h q len ∙ ap branch v

  emitted-IsHello :
      (s t : Bytes) → IsHello s → emitted frag (s ++ t) ≡ fragment (by_length frag) (s ++ t)
  unfolding split_at emitted_behind
  emitted-IsHello s t (v, size) =
      let h = take 5 s in
      let q = drop 5 s in
      let L = payload_len h in
      let len : length h ≡ 5 = omega (arith, length-take 5 s) in
      let qlen : length q ≡ L = omega (arith, length-drop 5 s) in
      let whole : s ++ t ≡ h ++ (q ++ t) =
        ap (λ x. x ++ t) (sym (take-append-drop 5 s)) ∙ append_assoc h q t in
      let spec : ℕ → Bytes = λ m.
        if leb_ℤ (frag m) (pos 0) || leb_ℤ (pos m) (frag m)
        then s
        else two_records s (pos_part (frag m)) in
      let spec_of : Bool → Bytes = λ b. if b then s else two_records s (cut_of frag h) in
      let goal : fragment (by_length frag) (s ++ t) ≡ spec_of (no_cut frag h) ++ t =
        fragment-IsHello (by_length frag) s t (v, size) ∙ ap (λ m. spec m ++ t) qlen in
      let code : Bool → Bytes =
        λ b. if b then h ++ (q ++ t) else emitted_cut h (cut_of frag h) (q ++ t) in
      let outer : Fault → Bytes = λ e. if is_some e then h ++ (q ++ t) else code (no_cut frag h) in
      let run : emitted frag (s ++ t) ≡ code (no_cut frag h) =
        ap (emitted frag) whole ∙ emitted_long frag h (q ++ t) len ∙ ap outer v in
      elim (Bool-cases (no_cut frag h)) [
        | inl b ↦ run ∙ ap code b ∙ sym whole ∙ ap (λ b. spec_of b ++ t) (sym b) ∙ sym goal
        | inr b ↦
            let (inside, lt) = no_cut-range frag h b in
            let le : cut_of frag h ≤ length q = omega (arith, qlen, lt) in
            run
            ∙ ap code b
            ∙ emitted_cut-append h (cut_of frag h) q t le
            ∙ ap (λ x. x ++ t) (emitted_cut-two_records h q (cut_of frag h) s refl refl qlen le)
            ∙ ap (λ b. spec_of b ++ t) (sym b)
            ∙ sym goal
      ]

  emitted-IsInvalid :
      (s t : Bytes) → IsInvalid s → emitted frag (s ++ t) ≡ fragment (by_length frag) (s ++ t)
  emitted-IsInvalid s t (long, (e, v)) =
      let h = take 5 s in
      let whole : s ++ t ≡ h ++ (drop 5 s ++ t) =
        ap (λ x. x ++ t) (sym (take-append-drop 5 s)) ∙ append_assoc h (drop 5 s) t in
      ap (emitted frag) whole
      ∙ uncut h (drop 5 s ++ t) (omega (arith, length-take 5 s)) (ap is_some v)
      ∙ sym whole
      ∙ sym (fragment-IsInvalid (by_length frag) s t (long, (e, v)))

-- Over a base writer that does not fail, slices that start with a whole Client Hello, or with a
-- header that Validate refuses, are sent as the specification `fragment` asks for, with the callback
-- on the length of the payload.
pub writes-fragment :
    {w : Writer} (frag : ℕ → ℤ) (c : Wire w) (ps : List Bytes) (s t : Bytes)
    → Reliable w
    → flatten ps ≡ s ++ t
    → IsHello s ⊎ IsInvalid s
    → (st : LenWriter w) × (writes frag (new_len_writer w c) ps ≡ (st, all_taken ps))
      × (flatten st.base.sent ≡ flatten c.sent ++ fragment (by_length frag) (flatten ps))
writes-fragment frag c ps s t ok split h =
    let (st, run, sent) = writes-emitted frag c ps ok in
    let agree : emitted frag (s ++ t) ≡ fragment (by_length frag) (s ++ t) = elim h [
      | inl hello ↦ emitted-IsHello frag s t hello
      | inr invalid ↦ emitted-IsInvalid frag s t invalid
    ] in
    (
      st,
      run,
      sent
          ∙ ap (λ u. flatten c.sent ++ u)
              (ap (emitted frag) split ∙ agree ∙ ap (fragment (by_length frag)) (sym split)),
    )
