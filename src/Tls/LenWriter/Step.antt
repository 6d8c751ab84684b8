-- ===== src/Tls/LenWriter/Step.antt =====
-- One Write of recordLenFragWriter while the first record is written.
use bfx_outline_sdk.Prelude.{
  ℕ, ◌+◌, ◌-◌, ◌%◌, ◌^◌, ◌≡◌, ◌<◌, none, Bool, Bool-cases, ◌++◌, if◌then◌else◌, length, take, drop,
  refl, sym, ap, ◌∙◌, arith, inl, inr, append_assoc, length-append, subst, ltb, true, take_all,
  take-append-drop, length-take,
}
use bfx_outline_sdk.Prelude.Int.{ℤ}
use bfx_outline_sdk.Io.{Bytes, Fault, Writer, Wire, is_some}
use bfx_outline_sdk.Tls.Header.{put_uint16, payload_len, set_payload_len}
use bfx_outline_sdk.Tls.LenWriter.{LenWriter, write_record, write_tail, write_first, second_header}
use bfx_outline_sdk.Tls.LenWriter.Reliable.{Reliable}
use bfx_outline_sdk.Tls.LenWriter.Tail.{write_tail-Passes, drop-length-take}
use bfx_outline_sdk.Tls.LenWriter.First.{
  first_state, Progress, write_record-Adds, set_payload_len-put, length-put_uint16, put-put_uint16,
}
use bfx_outline_sdk.Tls.LenWriter.Invariant.{Passing, IsCut, cut_of, Takes, completed}

module _ {w : Writer} (frag : ℕ → ℤ) (before : Bytes) where
  Progress-part :
      (c : Wire w) (h : Bytes) (k written : ℕ) (q : Bytes)
      → 0 < k
      → Progress before c h k written q
      → (length q < k) × (written < k + 5)
  Progress-part c h k written q pos (inl (start, empty, sent)) =
      (omega (arith, ap length empty), omega arith)
  Progress-part c h k written q pos (inr (at, lt, sent)) = (lt, omega arith)

  -- The second header.
  second_header-hdr :
      (c : Wire w) (h : Bytes) (written : ℕ)
      → IsCut frag h
      → (second_header w (first_state c h (cut_of frag h) (payload_len h) written)).hdr
        ≡ put_uint16 h 3 (payload_len h - cut_of frag h)
  unfolding second_header
  second_header-hdr c h written i =
      let k = cut_of frag h in
      let L = payload_len h in
      let n : L - k + 5 - 5 ≡ L - k = omega arith in
      ap (λ n. (set_payload_len (put_uint16 h 3 k) (n % 2 ^ 16)).0) n
      ∙ set_payload_len-put (put_uint16 h 3 k) (L - k) (omega (arith, i.cut_lt))
          (omega (arith, i.payload_le))
      ∙ put-put_uint16 h k (L - k) i.length-header

  pub write_first-Takes :
      Reliable w
      → (c : Wire w) (h q p : Bytes) (written n : ℕ) → IsCut frag h
      → Progress before c h (cut_of frag h) written q
      → Takes frag before
          (h ++ (q ++ p))
          (n + length p)
          (write_first w (first_state c h (cut_of frag h) (payload_len h) written) p n)
  unfolding write_first second_header
  write_first-Takes ok c h q p written n i g =
      let k = cut_of frag h in
      let L = payload_len h in
      let (part, begun) = Progress-part c h k written q i.cut_pos g in
      let (c', run, sent) =
        write_record-Adds ok before c h k L written q p i.length-header i.cut_pos g in
      let p' = take (k - length q) p in
      let s : LenWriter w = first_state c h k L written in
      let s1 : LenWriter w = first_state c' h k L (5 + length (q ++ p')) in
      let s2 : LenWriter w = second_header w s1 in
      let of : LenWriter w × ℕ × Fault → LenWriter w × ℕ × Fault = λ r.
        let next : LenWriter w × ℕ × Fault =
          if is_some r.2
          then (second_header w r.0, n + r.1, r.2)
          else write_tail w (second_header w r.0) (drop r.1 p) (n + r.1) in
        if ltb r.0.r1_written r.0.r1_size then (r.0, n + r.1, r.2) else next in
      let branch : Bool → LenWriter w × ℕ × Fault =
        λ b. if b then of (write_record w s p) else write_tail w s p n in
      let on : ltb written (k + 5) ≡ true = ground arith in
      let inner : Bool → LenWriter w × ℕ × Fault = λ b.
        if b
        then (s1, n + length p', none)
        else write_tail w s2 (drop (length p') p) (n + length p') in
      let size = length-append q p' in
      let taken = length-take (k - length q) p in
      let rest = drop (length p') p in
      let all : p' ++ rest ≡ p =
        ap (◌++◌ p') (drop-length-take (k - length q) p) ∙ take-append-drop (k - length q) p in
      let total = length-append p' rest in
      elim (Bool-cases (ltb (5 + length (q ++ p')) (k + 5))) [
        | inl e ↦
            let lt : length (q ++ p') < k = ground arith in
            let same : p' ≡ p = take_all (k - length q) p (omega (arith, size, taken)) in
            (
              s1,
              ap branch on ∙ ap of run ∙ ap inner e ∙ ap (λ x. (s1, n + length x, none)) same,
              inr (
                  inl (record {
                    wire = c';
                    header = h;
                    payload = q ++ p';
                    split = ap (λ x. h ++ (q ++ x)) (sym same);
                    is_cut = i;
                    is = refl;
                    part = lt;
                    sent = sent;
                  })),
            )
        | inr e ↦
            let hdr = second_header-hdr c' h (5 + length (q ++ p')) i in
            let five = length-put_uint16 h (L - k) i.length-header in
            let x =
              write_tail-Passes ok s2 rest (n + length p') (omega (arith, ap length hdr, five)) in
            let full : length (q ++ p') ≡ k = ground (arith, size, taken) in
            let split : h ++ ((q ++ p') ++ rest) ≡ h ++ (q ++ p) =
              ap (◌++◌ h) (append_assoc q p' rest ∙ ap (◌++◌ q) all) in
            (
              x.after,
              ap branch on
                  ∙ ap of run
                  ∙ ap inner e
                  ∙ x.result
                  ∙ ap (λ m. (x.after, m, none)) (omega (arith, total, ap length all)),
              inr (
                  inr (
                    subst (λ t. Passing frag before t x.after) split
                      (completed frag before h (q ++ p') rest s2 (n + length p')
                        (write_tail w s2 rest (n + length p')) i full refl hdr sent x))),
            )
      ]
