-- ===== src/Shadowsocks/Reader/Drains.antt =====
-- WriteTo: all of the plaintext goes to the writer, or as much of it as the writer takes.
use bfx_outline_sdk.Prelude.{
  Option-cases, length-take, length-append, flatten-append, ℕ, zero, suc, ◌+◌, ◌≡◌, ◌⊎◌, ◌++◌, none,
  some, [], ◌∷◌, length, arith, refl, sym, ap, ◌∙◌, ◌<◌, inr, inl, flatten, take, drop,
  append_assoc, Option, append-nil, subst,
}
use bfx_outline_sdk.Io.{Bytes, GoError, Fallible, Fault, Writer, Wire, send}
use bfx_outline_sdk.Shadowsocks.Cipher.{Aead}
use bfx_outline_sdk.Shadowsocks.Reader.{write_to_end, ReadConverter, write_to}
use bfx_outline_sdk.Shadowsocks.Reader.Upcoming.{SessionKey}
use bfx_outline_sdk.Shadowsocks.Reader.Carries.{Carries, ensure_leftover-Ensured, Carries-drop}

module _ (salt : Bytes) (aead : Aead) (w : Writer) where
  abbrev pub Written : Type 0
  Written = ReadConverter × Wire w × ℕ × Fault

  -- The last call of Write on the destination returned the error that WriteTo returns.
  abbrev pub WriterFailed : Written → Type 0
  WriterFailed r =
      (before : Wire w) × (q : Bytes) × (e : GoError) × ((send w before q).0 ≡ r.1)
      × ((send w before q).2 ≡ some e)
      × (r.3 ≡ some e)

  -- Of the plaintext `p` the writer got `handed`, the count says so, and the rest is still to come. Either
  -- there is no rest and no error, or Write of the destination failed, and its error is returned.
  pub record Drains (p : Bytes) (out : Wire w) (written : ℕ) (r : Written) : Type 0 where
    pub handed : Bytes
    pub rest : Bytes
    pub split : p ≡ handed ++ rest
    pub got : flatten r.1.sent ≡ flatten out.sent ++ handed
    pub count : r.2 ≡ written + length handed
    pub upcoming : Carries salt aead rest r.0
    pub ends : ((rest ≡ []) × (r.3 ≡ none)) ⊎ WriterFailed r

  Drains-stop :
      (rest : Bytes) (c : ReadConverter) (out : Wire w) (written : ℕ) (err : Fault)
      → Carries salt aead rest c
      → ((rest ≡ []) × (err ≡ none)) ⊎ WriterFailed (c, out, written, err)
      → Drains rest out written (c, out, written, err)
  Drains-stop rest c out written err h ends = record {
    handed = [];
    rest = rest;
    split = refl;
    got = sym (append-nil (flatten out.sent));
    count = omega arith;
    upcoming = h;
    ends = ends;
  }

  -- One call of Write, and what follows it.
  Drains-then :
      (x rest : Bytes) (out out' : Wire w) (written : ℕ) (r : Written)
      → out'.sent ≡ out.sent ++ x ∷ []
      → Drains rest out' (written + length x) r
      → Drains (x ++ rest) out written r
  Drains-then x rest out out' written r sent d = record {
    handed = x ++ d.handed;
    rest = d.rest;
    split = ap (◌++◌ x) d.split ∙ sym (append_assoc x d.handed d.rest);
    got =
        d.got
        ∙ ap (λ l. flatten l ++ d.handed) sent
        ∙ ap (λ l. l ++ d.handed) (flatten-append out.sent (x ∷ []))
        ∙ ap (λ l. (flatten out.sent ++ l) ++ d.handed) (append-nil x)
        ∙ append_assoc (flatten out.sent) x d.handed;
    count = omega (arith, d.count, length-append x d.handed);
    upcoming = d.upcoming;
    ends = d.ends;
  }

  module _ (new_aead : Bytes → Fallible Aead) (salt_size : ℕ) where
    -- When the plaintext `p` is to come and the fuel is more than its length, WriteTo returns. It has handed
    -- over just `p` and returns no error; or Write of the destination failed, WriteTo returns its error,
    -- has handed over what was taken until then, and the rest is still to come. It counts the bytes.
    pub write_to-Drains :
        (fuel : ℕ) (p : Bytes) (c : ReadConverter) (out : Wire w) (written : ℕ)
        → SessionKey new_aead salt_size salt aead
        → Carries salt aead p c
        → length p < fuel
        → (r : Written) × (write_to new_aead salt_size w fuel c out written ≡ some r)
          × Drains p out written r
    unfolding write_to send
    write_to-Drains zero p c out written k h lt = absurd (omega arith)
    write_to-Drains (suc fuel) p c out written k h lt =
        let after : ReadConverter → ReadConverter =
          λ c. record c { leftover = drop (send w out c.leftover).1 c.leftover } in
        let body : ReadConverter × Fault → Option Written = λ r.
          let (out', n, write_err) = send w out r.0.leftover in
          let more = write_to new_aead salt_size w fuel (after r.0) out' (written + n) in
          elim r.1 [
            | some e ↦ some (r.0, out, written, write_to_end e)
            | none ↦ elim write_err [
              | some e ↦ some (after r.0, out', written + n, some e)
              | none ↦ more
            ]
          ] in
        let (c', h', o) = ensure_leftover-Ensured salt aead new_aead salt_size p c k h in
        let (out', n, write_err) = send w out c'.leftover in
        elim o [
          | inr (e, empty) ↦ (
            (c', out, written, none),
            ap body e,
            Drains-stop p c' out written none h' (inl (empty, refl)),
          )
          | inl (e, pos) ↦
              let x = take n c'.leftover in
              let (rest, split, left) = Carries-drop salt aead new_aead salt_size p c' n h' in
              let le = w.write-le out.state c'.leftover in
              let len : n ≡ length x = omega (arith, length-take n c'.leftover) in
              let more = write_to new_aead salt_size w fuel (after c') out' (written + n) in
              let answer : Fault → Option Written = λ err. elim err [
                | some e ↦ some (after c', out', written + n, some e)
                | none ↦ more
              ] in
              let drains : (r : Written)
                  → Drains rest out' (written + n) r
                  → Drains p out written r =
                λ r d.
                  subst (λ q. Drains q out written r) (sym split)
                    (Drains-then x rest out out' written r refl
                      (subst (λ m. Drains rest out' (written + m) r) len d)) in
              elim (Option-cases write_err) [
                | inl err ↦
                    let full = w.write_full out.state c'.leftover err in
                    let (r, run, d) =
                      write_to-Drains fuel rest (after c') out' (written + n) k left
                        (omega (arith, ap length split, length-append x rest)) in
                    (r, ap body e ∙ ap answer err ∙ run, drains r d)
                | inr (er, err) ↦
                    let r : Written = (after c', out', written + n, some er) in
                    (
                      r,
                      ap body e ∙ ap answer err,
                      drains r (
                          Drains-stop rest (after c') out' (written + n) (some er) left
                            (inr (out, c'.leftover, er, refl, err, refl))),
                    )
              ]
        ]
