-- ===== src/Tls/LenWriter/Tail.antt =====
-- The end of Write: what is left of a header, and the slice behind it.
use bfx_outline_sdk.Prelude.{
  ℕ, zero, suc, ◌+◌, ◌-◌, ◌≡◌, ◌<◌, none, Bool, Bool-cases, [], ◌∷◌, ◌++◌, ◌==◌, if◌then◌else◌,
  length, take, drop, refl, sym, ap, ◌∙◌, arith, inl, inr, flatten, append-nil, append_assoc,
  length-nil, length-append, ◌||◌, take-append-drop, subst,
}
use bfx_outline_sdk.Io.{Bytes, Fault, Writer, Wire, is_some}
use bfx_outline_sdk.Tls.LenWriter.{LenWriter, mtu, write_base, write_tail, write_both_n}
use bfx_outline_sdk.Tls.LenWriter.Reliable.{Reliable, Passes, write_base-Passes, write_both_n-Got}

pub drop-length-take : (n : ℕ) (xs : Bytes) → drop (length (take n xs)) xs ≡ drop n xs
drop-length-take zero xs = refl
drop-length-take (suc n) [] = refl
drop-length-take (suc n) (x ∷ xs) = drop-length-take n xs

pub drop-length : (xs : Bytes) → drop (length xs) xs ≡ []
drop-length [] = refl
drop-length (x ∷ xs) = drop-length xs

module _ {w : Writer} where
  pub write_tail-Passes :
      Reliable w
      → (s : LenWriter w) (p : Bytes) (n : ℕ) → length s.hdr < mtu
      → Passes s p n (write_tail w s p n)
  unfolding write_tail
  write_tail-Passes ok s p n lt =
      let k = mtu - length s.hdr in
      let q = take k p in
      let p' = drop (length q) p in
      let all : q ++ p' ≡ p = ap (◌++◌ q) (drop-length-take k p) ∙ take-append-drop k p in
      let size = length-append q p' in
      let (c, run, got) = write_both_n-Got ok s.base s.hdr p mtu lt in
      let s' : LenWriter w = record s { base = c; hdr = drop (length s.hdr) s.hdr } in
      let headed : Bool → LenWriter w × ℕ × Fault =
        λ b. if b then (s', n + length q, none) else write_base w s' p' (n + length q) in
      let of : Wire w × ℕ × ℕ × Fault → LenWriter w × ℕ × Fault = λ r.
        let s1 : LenWriter w = record s { base = r.0; hdr = drop r.1 s.hdr } in
        if is_some r.3 || length (drop r.2 p) == 0
        then (s1, n + r.2, r.3)
        else write_base w s1 (drop r.2 p) (n + r.2) in
      let branch : Bool → LenWriter w × ℕ × Fault =
        λ b. if b then write_base w s p n else of (write_both_n w s.base s.hdr p mtu) in
      elim (Bool-cases (length s.hdr == 0)) [
        | inl e ↦
            subst (Passes s p n) (sym (ap branch e))
              (write_base-Passes ok s p n (length-nil s.hdr (ground arith)))
        | inr e ↦ elim (Bool-cases (length p' == 0)) [
          | inl z ↦
              let same : q ≡ p =
                sym (append-nil q) ∙ ap (◌++◌ q) (sym (length-nil p' (ground arith))) ∙ all in
              record {
                after = s';
                result =
                    ap branch e
                    ∙ ap of run
                    ∙ ap headed z
                    ∙ ap (λ m. (s', n + m, none)) (ap length same);
                got = got ∙ ap (λ x. flatten s.base.sent ++ (s.hdr ++ x)) same;
                no_header = drop-length s.hdr;
                done_after = refl;
              }
          | inr z ↦
              let rest = write_base-Passes ok s' p' (n + length q) (drop-length s.hdr) in
              record {
                after = rest.after;
                result =
                    ap branch e
                    ∙ ap of run
                    ∙ ap headed z
                    ∙ rest.result
                    ∙ ap (λ m. (rest.after, m, none)) (omega (arith, size, ap length all));
                got =
                    rest.got
                    ∙ ap (λ h. flatten c.sent ++ (h ++ p')) (drop-length s.hdr)
                    ∙ ap (λ x. x ++ p') got
                    ∙ append_assoc (flatten s.base.sent) (s.hdr ++ q) p'
                    ∙ ap (◌++◌ (flatten s.base.sent)) (append_assoc s.hdr q p')
                    ∙ ap (λ x. flatten s.base.sent ++ (s.hdr ++ x)) all;
                no_header = rest.no_header;
                done_after = rest.done_after;
              }
        ]
      ]
