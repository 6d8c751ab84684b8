-- ===== src/Tls/LenWriter/Reliable.antt =====
-- recordLenFragWriter over a base writer that does not fail: what its writes send.
use bfx_outline_sdk.Prelude.{
  ℕ, ◌+◌, ◌-◌, ◌≡◌, ◌<◌, none, Bool, Bool-cases, [], ◌++◌, leb, ◌==◌, if◌then◌else◌, length, take,
  refl, sym, ap, ap₂, ◌∙◌, arith, inl, inr, flatten, flatten-snoc, take_all, append-nil, length-nil,
  length-append, false,
}
use bfx_outline_sdk.Io.{Bytes, Fault, Writer, Wire, send}
use bfx_outline_sdk.Tls.LenWriter.{LenWriter, write_n, write_both, write_both_n, write_base}

abbrev pub Reliable : Writer → Type 0
Reliable w = (s : w.State) (p : Bytes) → (w.write s p).2 ≡ none

module _ {w : Writer} where
  -- The wire got `p` and nothing else.
  abbrev pub Got : Wire w → Bytes → Wire w → Type 0
  Got c p c' = flatten c'.sent ≡ flatten c.sent ++ p

  pub send-Got :
      Reliable w
      → (c : Wire w) (p : Bytes) → (c' : Wire w) × (send w c p ≡ (c', length p, none)) × Got c p c'
  unfolding send
  send-Got ok c p =
      let e = ok c.state p in
      let full = w.write_full c.state p e in
      let c' : Wire w = (send w c p).0 in
      (
        c',
        ap₂ (λ n err. (c', n, err)) full e,
        flatten-snoc c.sent (take (w.write c.state p).1 p)
            ∙ ap (◌++◌ (flatten c.sent)) (take_all _ p (omega (arith, full))),
      )

  write_both-Got :
      Reliable w
      → (c : Wire w) (p q : Bytes)
      → (c' : Wire w) × (write_both w c p q ≡ (c', length p, length q, none)) × Got c (p ++ q) c'
  unfolding write_both
  write_both-Got ok c p q =
      let len = length-append p q in
      let split : Wire w × ℕ × Fault → Bool → Wire w × ℕ × ℕ × Fault =
        λ r b. if b then (r.0, r.1, 0, r.2) else (r.0, length p, r.1 - length p, r.2) in
      let final : Wire w × ℕ × Fault → Wire w × ℕ × ℕ × Fault = λ r. split r (leb r.1 (length p)) in
      let inner : Bool → Wire w × ℕ × Fault = λ b. if b then (c, 0, none) else send w c (p ++ q) in
      let done : (c' : Wire w)
          → final (c', length (p ++ q), none) ≡ (c', length p, length q, none) =
        λ c'. elim (Bool-cases (leb (length (p ++ q)) (length p))) [
          | inl e ↦
              ap (split (c', length (p ++ q), none)) e
              ∙ ap₂ (λ a b. (c', a, b, none)) (ground (arith, len)) (ground (arith, len))
          | inr e ↦
              ap (split (c', length (p ++ q), none)) e
              ∙ ap (λ b. (c', length p, b, none)) (ground (arith, len))
        ] in
      elim (Bool-cases (length (p ++ q) == 0)) [
        | inl e ↦
            let none_left : p ++ q ≡ [] = length-nil (p ++ q) (ground arith) in
            (
              c,
              ap (λ b. final (inner b)) e
                  ∙ ap (λ n. final (c, n, none)) (ap length (sym none_left))
                  ∙ done c,
              sym (append-nil (flatten c.sent)) ∙ ap (◌++◌ (flatten c.sent)) (sym none_left),
            )
        | inr e ↦
            let (c', run, got) = send-Got ok c (p ++ q) in
            (c', ap (λ b. final (inner b)) e ∙ ap final run ∙ done c', got)
      ]

  pub write_both_n-Got :
      Reliable w
      → (c : Wire w) (p q : Bytes) (limit : ℕ) → length p < limit
      → let q' : Bytes = take (limit - length p) q in
        (c' : Wire w) × (write_both_n w c p q limit ≡ (c', length p, length q', none))
        × Got c (p ++ q') c'
  unfolding write_both_n
  write_both_n-Got ok c p q limit lt =
      let (c', run, got) = write_both-Got ok c p (take (limit - length p) q) in
      let branch : Bool → Wire w × ℕ × ℕ × Fault = λ b.
        if b
        then (
          (send w c (take limit p)).0,
          (send w c (take limit p)).1,
          0,
          (send w c (take limit p)).2,
        )
        else write_both w c p (take (limit - length p) q) in
      let off : leb limit (length p) ≡ false = ground arith in (c', ap branch off ∙ run, got)

  pub write_n-Got :
      Reliable w
      → (c : Wire w) (p : Bytes) (limit : ℕ) → 0 < limit
      → (c' : Wire w) × (write_n w c p limit ≡ (c', length (take limit p), none))
        × Got c (take limit p) c'
  unfolding write_n
  write_n-Got ok c p limit pos =
      let (c', run, got) = send-Got ok c (take limit p) in
      let branch : Bool → Wire w × ℕ × Fault =
        λ b. if b then (c, 0, none) else send w c (take limit p) in
      let off : (limit == 0) ≡ false = ground arith in (c', ap branch off ∙ run, got)

  -- Write takes the whole slice `p`, `n` bytes being counted before, and lets it through behind what
  -- is left of a header.
  pub record Passes (s : LenWriter w) (p : Bytes) (n : ℕ) (r : LenWriter w × ℕ × Fault)
      : Type 0 where
    pub after : LenWriter w
    pub result : r ≡ (after, n + length p, none)
    pub got : Got s.base (s.hdr ++ p) after.base
    pub no_header : after.hdr ≡ []
    pub done_after : after.done ≡ s.done

  pub write_base-Passes :
      Reliable w
      → (s : LenWriter w) (p : Bytes) (n : ℕ) → s.hdr ≡ []
      → Passes s p n (write_base w s p n)
  write_base-Passes ok s p n empty =
      let (c, run, got) = send-Got ok s.base p in
      record {
        after = record s { base = c };
        result = ap (λ r. (record s { base = r.0 }, n + r.1, r.2)) run;
        got = got ∙ ap (λ h. flatten s.base.sent ++ (h ++ p)) (sym empty);
        no_header = empty;
        done_after = refl;
      }
