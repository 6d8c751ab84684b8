-- ===== src/Io/Delivery.antt =====
-- What one or more calls of Write on a wrapped writer did with a slice.
use bfx_outline_sdk.Prelude.{
  ℕ, ◌+◌, ◌≤◌, ◌≡◌, refl, ap, ◌∙◌, none, some, ◌++◌, append_assoc, arith, length, take, drop,
  flatten, flatten-snoc, take-append-take, length-take, length-drop, take_all, take-take,
}
use bfx_outline_sdk.Io.{Bytes, GoError, Fault, Writer, Wire, send}

-- The bytes that the writer accepted so far, in order.
abbrev pub stream : {w : Writer} → Wire w → Bytes
stream c = flatten c.sent

-- From `before` to `after` the writer accepted exactly the first `n` bytes of `p`, and all of them
-- if no error is reported.
pub record Delivers {w : Writer} (before after : Wire w) (p : Bytes) (n : ℕ) (err : Fault)
    : Type 0 where
  pub count_le : n ≤ length p
  pub complete : err ≡ none → n ≡ length p
  pub accepted : stream after ≡ stream before ++ take n p

module _ (w : Writer) where
  open w use {write-le, write_full}

  pub send-Delivers :
      (c : Wire w) (p : Bytes) → Delivers c (send w c p).0 p (send w c p).1 (send w c p).2
  unfolding send
  send-Delivers c p = record {
    count_le = write-le c.state p;
    complete = write_full c.state p;
    accepted = flatten-snoc c.sent _;
  }

  -- A first part that is delivered without an error, and then the rest of the slice.
  pub Delivers-then :
      (a b c : Wire w) (p : Bytes) (k n m : ℕ) (err : Fault)
      → k ≤ length p
      → Delivers a b (take k p) n none
      → Delivers b c (drop n p) m err
      → Delivers a c p (n + m) err
  Delivers-then a b c p k n m err h first rest = record {
    count_le = omega (arith, first.count_le, rest.count_le, length-drop n p, length-take k p);
    complete = λ e. omega (
      arith,
      rest.complete e,
      rest.count_le,
      length-drop n p,
      length-take k p,
      first.complete refl,
    );
    accepted =
        rest.accepted
        ∙ ap (λ s. s ++ take m (drop n p)) (first.accepted ∙ ap (◌++◌ (stream a)) same)
        ∙ append_assoc (stream a) (take n p) (take m (drop n p))
        ∙ ap (◌++◌ (stream a)) (take-append-take n m p);
  }
    where
      n_is : n ≡ k
      n_is = omega (arith, first.complete refl, length-take k p)

      same : take n (take k p) ≡ take n p
      same = rw n_is (take_all k (take k p) (omega (arith, length-take k p)))

  -- A part that ends in an error ends the whole.
  pub Delivers-stop :
      (a b : Wire w) (p : Bytes) (k n : ℕ) (e : GoError)
      → Delivers a b (take k p) n (some e)
      → Delivers a b p n (some e)
  Delivers-stop a b p k n e d = record {
    count_le = omega (arith, d.count_le, length-take k p);
    complete = λ h. cc;
    accepted =
        d.accepted
        ∙ ap (◌++◌ (stream a)) (take-take n k p (omega (arith, d.count_le, length-take k p)));
  }
