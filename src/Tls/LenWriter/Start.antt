-- ===== src/Tls/LenWriter/Start.antt =====
-- recordLenFragWriter while it waits for the header, and its decision whether to split.
use bfx_outline_sdk.Prelude.{
  length-drop, ℕ, ◌+◌, ◌-◌, ◌%◌, ◌^◌, ◌≡◌, ◌<◌, none, some, Bool, Bool-cases, [], ◌++◌,
  if◌then◌else◌, length, take, drop, refl, sym, ap, ap₂, ◌∙◌, arith, inl, inr, flatten,
  append_assoc, length-append, subst, ◌⊎◌, ltb, true, false, take_all, take-append-drop,
  length-take, min, Option-cases,
}
use bfx_outline_sdk.Prelude.Int.{ℤ}
use bfx_outline_sdk.Io.{Bytes, Fault, Writer, Wire, is_some, message}
use bfx_outline_sdk.Tls.Header.{validate, payload_len, set_payload_len}
use bfx_outline_sdk.Tls.Header.Laws.{validate_range}
use bfx_outline_sdk.Tls.LenWriter.{
  LenWriter, new_len_writer, write_first, write_header, start_record, update_split_record_lens,
}
use bfx_outline_sdk.Tls.LenWriter.Reliable.{Reliable}
use bfx_outline_sdk.Tls.LenWriter.Tail.{write_tail-Passes}
use bfx_outline_sdk.Tls.LenWriter.First.{first_state, set_payload_len-put}
use bfx_outline_sdk.Tls.LenWriter.Emits.{emitted_cut, emitted, emitted_behind, emitted_long, no_cut}
use bfx_outline_sdk.Tls.LenWriter.Invariant.{IsCut, cut_of, Takes}
use bfx_outline_sdk.Tls.LenWriter.Step.{write_first-Takes}

pub no_cut-range :
    (frag : ℕ → ℤ) (h : Bytes)
    → no_cut frag h ≡ false
    → (0 < cut_of frag h) × (cut_of frag h < payload_len h)
no_cut-range frag h e = ground arith

module _ {w : Writer} (frag : ℕ → ℤ) where
  -- Before the decision, and with the decision not to split.
  abbrev pub with_header : Wire w → Bytes → LenWriter w
  with_header c h = record (new_len_writer w c) { hdr = h }

  abbrev stopped : Wire w → Bytes → LenWriter w
  stopped c h = record (new_len_writer w c) { hdr = h; has_tls_hdr = true; done = true }

  -- Either nothing is split, or the first record starts.
  start_record-cases :
      (c : Wire w) (h : Bytes)
      → length h ≡ 5
      → ((start_record w frag (with_header c h) ≡ stopped c h)
          × ((q : Bytes) → emitted_behind frag h q ≡ h ++ q))
        ⊎ ((start_record w frag (with_header c h)
              ≡ first_state c h (cut_of frag h) (payload_len h) 0)
            × IsCut frag h)
  unfolding start_record update_split_record_lens emitted_behind new_len_writer
  start_record-cases c h len =
      let k = cut_of frag h in
      let L = payload_len h in
      let s1 : LenWriter w = record (with_header c h) { has_tls_hdr = true } in
      let s2 : LenWriter w = record s1 { r1_size = k + 5; r2_size = L - k + 5 } in
      let update : Bool → LenWriter w × Fault =
        λ b. if b then (s1, some (message "invalid split position")) else (s2, none) in
      let start : Fault → LenWriter w × Fault → LenWriter w = λ v r.
        if is_some v
        then record s1 { done = true }
        else if is_some r.1
        then record r.0 { done = true }
        else record r.0 { hdr = (set_payload_len r.0.hdr ((r.0.r1_size - 5) % 2 ^ 16)).0 } in
      let cut_out : Bytes → Bool → Bytes = λ q b. if b then h ++ q else emitted_cut h k q in
      let out : Bytes → Fault → Bytes =
        λ q v. if is_some v then h ++ q else cut_out q (no_cut frag h) in
      elim (Option-cases (validate h)) [
        | inr (e, v) ↦ inl (ap (λ v. start v (update (no_cut frag h))) v, λ q. ap (out q) v)
        | inl v ↦ elim (Bool-cases (no_cut frag h)) [
          | inl b ↦ inl (ap₂ (λ v b. start v (update b)) v b, λ q. ap (out q) v ∙ ap (cut_out q) b)
          | inr b ↦
              let (inside, lt) = no_cut-range frag h b in
              let (some_payload, le) = validate_range h v in
              let n : k + 5 - 5 ≡ k = omega arith in
              inr (
                ap₂ (λ v b. start v (update b)) v b
                    ∙ ap (λ m. record s2 { hdr = (set_payload_len h (m % 2 ^ 16)).0 }) n
                    ∙ ap (λ x. record s2 { hdr = x })
                        (set_payload_len-put h k inside (omega arith)),
                record {
                  length-header = len;
                  valid = v;
                  cut = b;
                  cut_pos = inside;
                  cut_lt = lt;
                  payload_le = le;
                },
              )
        ]
      ]

  module _ (before : Bytes) where
    -- The header is complete, and nothing is split.
    stopped-Takes :
        Reliable w
        → (c : Wire w) (h q : Bytes) (n : ℕ) → length h ≡ 5
        → flatten c.sent ≡ before
        → ((q : Bytes) → emitted_behind frag h q ≡ h ++ q)
        → Takes frag before (h ++ q) (n + length q) (write_first w (stopped c h) q n)
    unfolding write_first new_len_writer
    stopped-Takes ok c h q n len sent plain =
        let x = write_tail-Passes ok (stopped c h) q n (omega (arith, len)) in
        let all : (q : Bytes) → emitted frag (h ++ q) ≡ h ++ q =
          λ q. emitted_long frag h q len ∙ plain q in
        (
          x.after,
          x.result,
          inr (
              inr (record {
                done = x.done_after;
                no_header = x.no_header;
                sent = x.got ∙ ap₂ ◌++◌ sent (sym (all q));
                through = λ y.
                    ap (emitted frag) (append_assoc h q y)
                    ∙ all (q ++ y)
                    ∙ sym (append_assoc h q y)
                    ∙ ap (λ u. u ++ y) (sym (all q));
              })),
        )

    pub Collecting-Takes :
        Reliable w
        → (c : Wire w) (t p : Bytes) → length t < 5
        → flatten c.sent ≡ before
        → Takes frag before (t ++ p) (length p) (write_header w frag (with_header c t) p)
    unfolding write_header
    Collecting-Takes ok c t p short sent =
        let n = min (5 - length t) (length p) in
        let h = t ++ take n p in
        let q = drop n p in
        let taken = length-take n p in
        let size = length-append t (take n p) in
        let left = length-drop n p in
        let split : h ++ q ≡ t ++ p =
          append_assoc t (take n p) q ∙ ap (◌++◌ t) (take-append-drop n p) in
        let branch : Bool → LenWriter w × ℕ × Fault = λ b.
          if b
          then (with_header c h, n, none)
          else write_first w (start_record w frag (with_header c h)) q n in
        let start : LenWriter w → LenWriter w × ℕ × Fault = λ s. write_first w s q n in
        let T : Bytes → ℕ → LenWriter w × ℕ × Fault → Type 0 = Takes frag before in
        elim (Bool-cases (ltb (length h) 5)) [
          | inl e ↦
              let all : n ≡ length p = ground (arith, taken, size) in
              let same : take n p ≡ p = take_all n p (omega (arith, all)) in
              (
                with_header c h,
                ap branch e ∙ ap (λ m. (with_header c h, m, none)) all,
                inl (record {
                  wire = c;
                  is = ap (λ x. with_header c (t ++ x)) same;
                  short = ground (arith, ap length same, size, taken);
                  sent = sent;
                }),
              )
          | inr e ↦
              let len : length h ≡ 5 = ground (arith, taken, size) in
              let count : n + length q ≡ length p = omega (arith, left) in
              elim (start_record-cases c h len) [
                | inl (s, plain) ↦ subst (T (t ++ p) (length p)) (sym (ap branch e ∙ ap start s)) (
                    subst (λ u. T u (length p) (start (stopped c h))) split
                      (subst (λ m. T (h ++ q) m (start (stopped c h))) count
                        (stopped-Takes ok c h q n len sent plain)))
                | inr (s, i) ↦
                    let f : LenWriter w = first_state c h (cut_of frag h) (payload_len h) 0 in
                    subst (T (t ++ p) (length p)) (sym (ap branch e ∙ ap start s)) (
                      subst (λ u. T u (length p) (start f)) split
                        (subst (λ m. T (h ++ q) m (start f)) count
                          (write_first-Takes frag before ok c h [] q 0 n i
                            (inl (refl, refl, sent)))))
              ]
        ]
