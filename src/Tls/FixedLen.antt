-- ===== src/Tls/FixedLen.antt =====
-- transport/tlsfrag/stream_dialer.go: WrapConnFixedLen and the dialer that uses it. The base dialer is
-- not code of this file: what it returns is given.
use bfx_outline_sdk.Prelude.{
  [], ◌∷◌, append-nil, append_assoc, none, ℕ, zero, suc, ◌-◌, ◌≡◌, List, ◌++◌, ltb, if◌then◌else◌,
  length, drop, flatten, inl, inr, arith, refl, ap, ◌∙◌, sym,
}
use bfx_outline_sdk.Prelude.Int.{ℤ, pos, negsuc, ltb_ℤ, ◌+ℤ◌, is_zero}
use bfx_outline_sdk.Io.{Fault, send, Bytes, Fallible, Writer, Wire}
use bfx_outline_sdk.Tls.Fragment.{IsHello, two_records, split_at, fragment, fragment-IsHello}
use bfx_outline_sdk.Tls.LenWriter.{LenWriter, new_len_writer}
use bfx_outline_sdk.Tls.LenWriter.Reliable.{Reliable, Got, send-Got}
use bfx_outline_sdk.Tls.LenWriter.Run.{writes, all_taken}
use bfx_outline_sdk.Tls.LenWriter.Agree.{by_length, writes-fragment}

-- The callback that is given to NewRecordLenFuncWriter.
unfoldable pub fixed_len_func : ℤ → ℕ → ℤ
fixed_len_func split_len record_len =
    if ltb_ℤ (pos 0) split_len then split_len else pos record_len +ℤ split_len

-- A connection of the dialer: that of the base dialer, or one whose writer fragments.
pub data FixedLenConn (w : Writer) : Type 0 where
  plain : Wire w → FixedLenConn w
  fragmenting : (ℕ → ℤ) → LenWriter w → FixedLenConn w

module _ (w : Writer) where
  abbrev pub wrap_conn_fixed_len : ℤ → Wire w → FixedLenConn w
  wrap_conn_fixed_len split_len base =
      fragmenting (fixed_len_func split_len) (new_len_writer w base)

  -- DialStream of the dialer, where the base dialer returns `base`.
  abbrev pub dial_fixed_len : ℤ → Fallible (Wire w) → Fallible (FixedLenConn w)
  dial_fixed_len split_len (inl e) = inl e
  dial_fixed_len split_len (inr base) =
      inr (if is_zero split_len then plain base else wrap_conn_fixed_len split_len base)

-- The slices `ps` are written to a connection, one Write for each: what the base got then, and what the
-- Writes return.
unfoldable pub send_all : {w : Writer} → Wire w → List Bytes → Wire w × List (ℕ × Fault)
send_all c [] = (c, [])
send_all {w} c (p ∷ ps) =
    let (c', n, err) = send w c p in
    let (c'', answers) = send_all c' ps in (c'', (n, err) ∷ answers)

abbrev pub conn_writes : {w : Writer} → FixedLenConn w → List Bytes → Wire w × List (ℕ × Fault)
conn_writes (plain c) ps = send_all c ps
conn_writes (fragmenting frag s) ps = let (s', answers) = writes frag s ps in (s'.base, answers)

-- What is to become of a Client Hello record: a positive length is that of the first piece, a negative
-- one that of the second.
abbrev pub fixed_pieces : ℤ → Bytes → Bytes
fixed_pieces (pos zero) rec = rec
fixed_pieces (pos (suc k)) rec =
    if ltb (suc k) (length (drop 5 rec)) then two_records rec (suc k) else rec
fixed_pieces (negsuc k) rec =
    if ltb (suc k) (length (drop 5 rec)) then two_records rec (length (drop 5 rec) - suc k) else rec

split_at-fixed_pieces :
    (split_len : ℤ) (rec : Bytes)
    → split_at (by_length (fixed_len_func split_len)) rec ≡ fixed_pieces split_len rec
unfolding split_at fixed_len_func
split_at-fixed_pieces (pos zero) rec = ground arith
split_at-fixed_pieces (pos (suc k)) rec = ground arith
split_at-fixed_pieces (negsuc k) rec = ground arith

wrapped-sends :
    {w : Writer} (split_len : ℤ) (c : Wire w) (ps : List Bytes) (rec rest : Bytes)
    → Reliable w
    → flatten ps ≡ rec ++ rest
    → IsHello rec
    → (c' : Wire w) × (conn_writes (wrap_conn_fixed_len w split_len c) ps ≡ (c', all_taken ps))
      × (flatten c'.sent ≡ flatten c.sent ++ (fixed_pieces split_len rec ++ rest))
wrapped-sends split_len c ps rec rest ok split hello =
    let f = fixed_len_func split_len in
    let (st, e, sent) = writes-fragment f c ps rec rest ok split (inl hello) in
    (
      st.base,
      ap (λ x. (x.0.base, x.1)) e,
      sent
          ∙ ap (λ u. flatten c.sent ++ u)
              (ap (fragment (by_length f)) split
                ∙ fragment-IsHello (by_length f) rec rest hello
                ∙ ap (λ u. u ++ rest) (split_at-fixed_pieces split_len rec)),
    )

send_all-Got :
    {w : Writer} (c : Wire w) (ps : List Bytes)
    → Reliable w
    → (c' : Wire w) × (send_all c ps ≡ (c', all_taken ps)) × Got c (flatten ps) c'
unfolding send_all
send_all-Got c [] ok = (c, refl, sym (append-nil (flatten c.sent)))
send_all-Got {w} c (p ∷ ps) ok =
    let rest : Wire w × ℕ × Fault → Wire w × List (ℕ × Fault) =
      λ r. let x = send_all r.0 ps in (x.0, (r.1, r.2) ∷ x.1) in
    let (c1, e, got) = send-Got ok c p in
    let (c2, es, gots) = send_all-Got c1 ps ok in
    (
      c2,
      ap rest e ∙ ap (λ (x : Wire w × List (ℕ × Fault)). (x.0, (length p, none) ∷ x.1)) es,
      gots ∙ ap (λ b. b ++ flatten ps) got ∙ append_assoc (flatten c.sent) p (flatten ps),
    )

-- If the base dialer gives a connection that does not fail, and the slices that are written start, one
-- after the other, with a whole Client Hello, then DialStream gives a connection of which all Writes take
-- their slices, and the base gets the Client Hello in two records, of which the first, for a positive
-- length, or the second, for a negative one, has just this length, or as it is if it has no more bytes
-- than that or the length is zero; and all that follows as it is.
pub dial_fixed_len-sends :
    {w : Writer} (split_len : ℤ) (c : Wire w) (ps : List Bytes) (rec rest : Bytes)
    → Reliable w
    → flatten ps ≡ rec ++ rest
    → IsHello rec
    → (conn : FixedLenConn w) × (c' : Wire w) × (dial_fixed_len w split_len (inr c) ≡ inr conn)
      × (conn_writes conn ps ≡ (c', all_taken ps))
      × (flatten c'.sent ≡ flatten c.sent ++ (fixed_pieces split_len rec ++ rest))
dial_fixed_len-sends (pos zero) c ps rec rest ok split hello =
    let (c', e, got) = send_all-Got c ps ok in
    (plain c, c', refl, e, got ∙ ap (λ u. flatten c.sent ++ u) split)
dial_fixed_len-sends {w} (pos (suc k)) c ps rec rest ok split hello =
    let (c', e, sent) = wrapped-sends (pos (suc k)) c ps rec rest ok split hello in
    (wrap_conn_fixed_len w (pos (suc k)) c, c', refl, e, sent)
dial_fixed_len-sends {w} (negsuc k) c ps rec rest ok split hello =
    let (c', e, sent) = wrapped-sends (negsuc k) c ps rec rest ok split hello in
    (wrap_conn_fixed_len w (negsuc k) c, c', refl, e, sent)
