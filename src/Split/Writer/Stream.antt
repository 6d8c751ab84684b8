-- ===== src/Split/Writer/Stream.antt =====
-- What Write does to the stream, over any wrapped writer.
use native.Mathlib.Decide.{dec_lt}
use bfx_outline_sdk.Prelude.{
  ℕ, zero, suc, ◌+◌, ◌≤◌, ◌≡◌, ◌<◌, refl, ap, ◌∙◌, List, [], ◌∷◌, none, some, inl, inr, ◌⊎◌, length,
  take, drop, arith, Option-cases, length-take, length-drop,
}
use bfx_outline_sdk.Prelude.Int.{pos, pos_part}
use bfx_outline_sdk.Io.{Bytes, GoError, Fault, Writer, send}
use bfx_outline_sdk.Io.Delivery.{Delivers, send-Delivers, Delivers-then, Delivers-stop}
use bfx_outline_sdk.Split.Iterator.{SplitIterator}
use bfx_outline_sdk.Split.Writer.{SplitWriter, write_part, write_loop, write, Pending}
use bfx_outline_sdk.Split.Writer.Advance.{
  after, after-after, advance-Pending, advance-writer, cut_test, stop_test,
}

module _ (w : Writer) (it : SplitIterator) where
  -- What a run of Write amounts to, with the lengths that were pending before it.
  pub record Wrote (sw : SplitWriter w it) (p : Bytes) (ls : List ℕ) (sw' : SplitWriter w it)
      (n : ℕ) (err : Fault) : Type 0 where
    pub delivers : Delivers sw.writer sw'.writer p n err
    pub pending : Pending sw' (after ls n)

  write_part_lem :
      (sw : SplitWriter w it) (p : Bytes) (ls : List ℕ)
      → Pending sw ls
      → ((l : ℕ) → sw.next_split_bytes ≡ pos l → 0 < l → length p ≤ l)
      → let r = write_part w it sw p in Wrote sw p ls r.0 r.1 r.2
  unfolding write_part
  write_part_lem sw p ls h fits = record {
    delivers =
        rw
          (advance-writer w it (record sw { writer = (send w sw.writer p).0 })
            (send w sw.writer p).1)
          (send-Delivers w sw.writer p);
    pending =
        advance-Pending w it (record sw { writer = (send w sw.writer p).0 }) ls
          (send w sw.writer p).1 h
          (λ l e lt. omega (arith, fits l e lt, (send-Delivers w sw.writer p).count_le));
  }

module _ (w : Writer) (it : SplitIterator) where
  -- The outcome of the loop, its fuel given.
  Finishes : ℕ → SplitWriter w it → Bytes → ℕ → List ℕ → Type 0
  Finishes fuel sw p written ls =
      (sw' : SplitWriter w it) × (n : ℕ) × (err : Fault) × (write_loop w it fuel sw p written
        ≡ some (sw', written + n, err))
      × Wrote w it sw p ls sw' n err

  abbrev pub part : SplitWriter w it → Bytes → SplitWriter w it × ℕ × Fault
  part sw p = write_part w it sw (take (pos_part sw.next_split_bytes) p)

  last_round :
      (fuel : ℕ) (sw : SplitWriter w it) (p : Bytes) (written : ℕ) (ls : List ℕ) (l : ℕ)
      → Pending sw ls
      → sw.next_split_bytes ≡ pos l
      → (l ≡ 0) ⊎ (length p ≤ l)
      → Finishes (suc fuel) sw p written ls
  unfolding Finishes write_loop
  last_round fuel sw p written ls l h e stop =
      (_, _, _, rw (stop_test _ l (length p) e stop) refl, write_part_lem w it sw p ls h fits)
    where
      fits : (k : ℕ) → sw.next_split_bytes ≡ pos k → 0 < k → length p ≤ k
      fits k f lt = ground arith

  error_round :
      (fuel : ℕ) (sw : SplitWriter w it) (p : Bytes) (written l : ℕ) {e : GoError}
      → sw.next_split_bytes ≡ pos l
      → 0 < l
      → l < length p
      → let part = write_part w it sw (take (pos_part sw.next_split_bytes) p) in
        part.2 ≡ some e
        → write_loop w it (suc fuel) sw p written ≡ some (part.0, written + part.1, some e)
  unfolding write_loop
  error_round fuel sw p written l next lt cut err = rw (cut_test _ l (length p) next lt cut, err)

  pub next_round :
      (fuel : ℕ) (sw : SplitWriter w it) (p : Bytes) (written l : ℕ)
      → sw.next_split_bytes ≡ pos l
      → 0 < l
      → l < length p
      → let part = write_part w it sw (take (pos_part sw.next_split_bytes) p) in
        part.2 ≡ none
        → write_loop w it (suc fuel) sw p written
          ≡ write_loop w it fuel part.0 (drop part.1 p) (written + part.1)
  unfolding write_loop
  next_round fuel sw p written l next lt cut err = rw (cut_test _ l (length p) next lt cut, err)

  part-Wrote :
      (sw : SplitWriter w it) (p : Bytes) (l : ℕ) (ls : List ℕ)
      → Pending sw (l ∷ ls)
      → Wrote w it sw
          (take (pos_part sw.next_split_bytes) p)
          (l ∷ ls)
          (part sw p).0
          (part sw p).1
          (part sw p).2
  part-Wrote sw p l ls h = write_part_lem w it sw _ (l ∷ ls) h fits
    where
      fits :
          (k : ℕ)
          → sw.next_split_bytes ≡ pos k
          → 0 < k
          → length (take (pos_part sw.next_split_bytes) p) ≤ k
      fits k e lt = omega (arith, length-take (pos_part sw.next_split_bytes) p, ap pos_part e)

  part_full :
      (sw : SplitWriter w it) (p : Bytes) (l : ℕ) (ls : List ℕ)
      → Pending sw (l ∷ ls)
      → l < length p
      → (part sw p).2 ≡ none
      → (part sw p).1 ≡ l
  part_full sw p l ls h cut e = omega (
    arith,
    (part-Wrote sw p l ls h).delivers.complete e,
    length-take (pos_part sw.next_split_bytes) p,
    ap pos_part h.0,
  )

  -- A round that is delivered, and then the rounds after it.
  Finishes-then :
      (fuel : ℕ) (sw sw1 : SplitWriter w it) (p : Bytes) (written k n : ℕ) (ls : List ℕ)
      → k ≤ length p
      → write_loop w it (suc fuel) sw p written ≡ write_loop w it fuel sw1 (drop n p) (written + n)
      → Wrote w it sw (take k p) ls sw1 n none
      → Finishes fuel sw1 (drop n p) (written + n) (after ls n)
      → Finishes (suc fuel) sw p written ls
  unfolding Finishes
  Finishes-then fuel sw sw1 p written k n ls le step first (sw2, m, err, e, rest) = (
    sw2,
    n + m,
    err,
    step ∙ e ∙ ap (λ t. some (sw2, t, err)) (omega arith),
    record {
      delivers =
          Delivers-then w sw.writer sw1.writer sw2.writer p k n m err le first.delivers
            rest.delivers;
      pending = rw (after-after ls n m) at rest.pending;
    },
  )

  write_loop-Finishes :
      (fuel : ℕ) (sw : SplitWriter w it) (p : Bytes) (written : ℕ) (ls : List ℕ)
      → length p < fuel
      → Pending sw ls
      → Finishes fuel sw p written ls
  unfolding Finishes
  write_loop-Finishes zero sw p written ls f h = absurd (omega arith)
  write_loop-Finishes (suc fuel) sw p written [] f h =
      last_round fuel sw p written [] 0 h h (inl refl)
  write_loop-Finishes (suc fuel) sw p written (l ∷ ls) f h = elim (dec_lt l (length p)) [
    | no stop ↦ last_round fuel sw p written (l ∷ ls) l h h.0 (inr (omega arith))
    | yes cut ↦ elim (Option-cases (part sw p).2) [
      | inr (e, err) ↦ (
        _,
        _,
        _,
        error_round fuel sw p written l h.0 h.1 cut err,
        record {
          delivers =
              Delivers-stop w sw.writer (part sw p).0.writer p (pos_part sw.next_split_bytes) _ e
                (rw err at (part-Wrote sw p l ls h).delivers);
          pending = (part-Wrote sw p l ls h).pending;
        },
      )
      | inl err ↦
          Finishes-then fuel sw (part sw p).0 p written (pos_part sw.next_split_bytes) (part sw p).1
            (l ∷ ls) (omega (arith, ap pos_part h.0))
            (next_round fuel sw p written l h.0 h.1 cut err) (rw err at (part-Wrote sw p l ls h))
            (write_loop-Finishes fuel (part sw p).0 (drop (part sw p).1 p) (written + (part sw p).1)
              (after (l ∷ ls) (part sw p).1)
              (omega (arith, length-drop (part sw p).1 p, part_full sw p l ls h cut err, h.1))
              (part-Wrote sw p l ls h).pending)
    ]
  ]

  -- Write of the split writer, over any wrapped writer: it ends, the wrapped writer accepts exactly
  -- the first n bytes of the slice in order, all of them when there is no error, and the lengths
  -- that are still pending are those that n bytes of the stream leave.
  pub write-Wrote :
      (sw : SplitWriter w it) (p : Bytes) (ls : List ℕ)
      → Pending sw ls
      → (sw' : SplitWriter w it) × (n : ℕ) × (err : Fault) × (write w it sw p ≡ some (sw', n, err))
        × Wrote w it sw p ls sw' n err
  unfolding write Finishes
  write-Wrote sw p ls h =
      let (sw', n, err, e, wrote) =
        write_loop-Finishes (suc (length p)) sw p 0 ls (omega arith) h in
      (sw', n, err, e ∙ ap (λ t. some (sw', t, err)) (omega arith), wrote)
