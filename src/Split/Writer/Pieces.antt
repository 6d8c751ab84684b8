-- ===== src/Split/Writer/Pieces.antt =====
-- Over a connection that accepts everything, the pieces that Write sends.
use native.Mathlib.Decide.{dec_lt}
use bfx_outline_sdk.Prelude.{
  zero, suc, inr, sym, append_assoc, length-drop, ◌∙◌, inl, length-take, ℕ, suc, ◌+◌, ◌≤◌, ◌≡◌, ◌<◌,
  refl, ap, List, [], ◌∷◌, ◌++◌, none, some, ◌⊎◌, if◌then◌else◌, length, take, drop, ltb, arith,
  take_all, flatten, take-append-drop, append-nil,
}
use bfx_outline_sdk.Prelude.Int.{pos_part, pos}
use bfx_outline_sdk.Io.{Wire, Writer, Bytes, send, perfect}
use bfx_outline_sdk.Split.Iterator.{
  expand, clean_splits, repeated_split, RepeatedSplit, SplitIterator,
}
use bfx_outline_sdk.Split.Writer.{
  write, new_writer, SplitWriter, advance, write_part, write_loop, Pending,
}
use bfx_outline_sdk.Split.Writer.Stream.{next_round}
use bfx_outline_sdk.Split.Iterator.Lengths.{clean_splits-Yields}
use bfx_outline_sdk.Split.Writer.Advance.{
  after_le, Yields-Pending, after_eq, after, advance-Pending, advance-writer, stop_test,
}

-- The pieces of `p` that the lengths make. What is left goes out in one piece.
pub cut_at : List ℕ → Bytes → List Bytes
cut_at [] p = p ∷ []
cut_at (l ∷ ls) p = if ltb l (length p) then take l p ∷ cut_at ls (drop l p) else p ∷ []

cut_at_stop : (l : ℕ) (ls : List ℕ) (p : Bytes) → length p ≤ l → cut_at (l ∷ ls) p ≡ p ∷ []
unfolding cut_at
cut_at_stop l ls p h = ground arith

cut_at_cut :
    (l : ℕ) (ls : List ℕ) (p : Bytes)
    → l < length p
    → cut_at (l ∷ ls) p ≡ take l p ∷ cut_at ls (drop l p)
unfolding cut_at
cut_at_cut l ls p h = ground arith

-- The pieces are the slice again.
pub flatten-cut_at : (ls : List ℕ) (p : Bytes) → flatten (cut_at ls p) ≡ p
flatten-cut_at [] p = unfold cut_at in append-nil p
flatten-cut_at (l ∷ ls) p = elim (dec_lt l (length p)) [
  | yes cut ↦ rw (cut_at_cut l ls p cut, flatten-cut_at ls (drop l p)) (take-append-drop l p)
  | no stop ↦ rw (cut_at_stop l ls p (omega arith)) (append-nil p)
]

module _ (it : SplitIterator) where
  abbrev Sw : Type 0
  Sw = SplitWriter perfect it

  -- The writer after a part that is accepted whole.
  abbrev moved : Sw → Bytes → Sw
  moved sw p =
      advance perfect it
        (record sw { writer = record { state = tt; sent = sw.writer.sent ++ p ∷ [] } }) (length p)

  write_part_whole :
      (sw : Sw) (p : Bytes) → write_part perfect it sw p ≡ (moved sw p, length p, none)
  unfolding write_part send
  write_part_whole sw p = rw (take_all (length p) p (omega arith))

  sent-moved : (sw : Sw) (p : Bytes) → (moved sw p).writer.sent ≡ sw.writer.sent ++ p ∷ []
  sent-moved sw p = ap (λ c. c.sent) (advance-writer perfect it _ (length p))

  abbrev Sends : ℕ → Sw → Bytes → ℕ → List ℕ → Type 0
  Sends fuel sw p written ls =
      (sw' : Sw) × (write_loop perfect it fuel sw p written ≡ some (sw', written + length p, none))
      × (sw'.writer.sent ≡ sw.writer.sent ++ cut_at ls p)
      × Pending sw' (after ls (length p))

  last_piece :
      (fuel : ℕ) (sw : Sw) (p : Bytes) (written : ℕ) (ls : List ℕ) (l : ℕ)
      → Pending sw ls
      → sw.next_split_bytes ≡ pos l
      → (l ≡ 0) ⊎ (length p ≤ l)
      → cut_at ls p ≡ p ∷ []
      → Sends (suc fuel) sw p written ls
  unfolding write_loop
  last_piece fuel sw p written ls l h e stop c = (
    moved sw p,
    rw (stop_test _ l (length p) e stop, write_part_whole sw p) refl,
    rw c (sent-moved sw p),
    advance-Pending perfect it _ ls (length p) h fits,
  )
    where
      fits : (k : ℕ) → sw.next_split_bytes ≡ pos k → 0 < k → length p ≤ k
      fits k f lt = ground arith

  -- One round that cuts sends the part up to the cut.
  cut_round :
      (fuel : ℕ) (sw : Sw) (p : Bytes) (written l : ℕ) (ls : List ℕ)
      → Pending sw (l ∷ ls)
      → l < length p
      → write_loop perfect it (suc fuel) sw p written
        ≡ write_loop perfect it fuel (moved sw (take l p)) (drop l p) (written + l)
  cut_round fuel sw p written l ls h cut =
      next_round perfect it fuel sw p written l h.0 h.1 cut (ap (λ r. r.2) part_is)
      ∙ rw (part_is, len) refl
    where
      part_is :
          write_part perfect it sw (take (pos_part sw.next_split_bytes) p)
          ≡ (moved sw (take l p), length (take l p), none)
      part_is =
          ap (λ k. write_part perfect it sw (take (pos_part k) p)) h.0
          ∙ write_part_whole sw (take l p)

      len : length (take l p) ≡ l
      len = omega (arith, length-take l p)

  moved-Pending :
      (sw : Sw) (p : Bytes) (l : ℕ) (ls : List ℕ)
      → Pending sw (l ∷ ls)
      → l < length p
      → Pending (moved sw (take l p)) ls
  moved-Pending sw p l ls h cut =
      rw (ap (after (l ∷ ls)) len ∙ after_eq perfect it sw.segments l ls h.2) at step
    where
      len : length (take l p) ≡ l
      len = omega (arith, length-take l p)

      step : Pending (moved sw (take l p)) (after (l ∷ ls) (length (take l p)))
      step =
          advance-Pending perfect it _ (l ∷ ls) (length (take l p)) h
            (λ k e lt. ground (arith, length-take l p))

  write_loop-Sends :
      (fuel : ℕ) (sw : Sw) (p : Bytes) (written : ℕ) (ls : List ℕ)
      → length p < fuel
      → Pending sw ls
      → Sends fuel sw p written ls
  write_loop-Sends zero sw p written ls f h = absurd (omega arith)
  write_loop-Sends (suc fuel) sw p written [] f h =
      last_piece fuel sw p written [] 0 h h (inl refl) (unfold cut_at in refl)
  write_loop-Sends (suc fuel) sw p written (l ∷ ls) f h = elim (dec_lt l (length p)) [
    | no stop ↦
        last_piece fuel sw p written (l ∷ ls) l h h.0 (inr (omega arith))
          (cut_at_stop l ls p (omega arith))
    | yes cut ↦ resume cut (
        write_loop-Sends fuel (moved sw (take l p)) (drop l p) (written + l) ls
          (omega (arith, length-drop l p, h.1)) (moved-Pending sw p l ls h cut))
  ]
    where
      resume :
          l < length p
          → Sends fuel (moved sw (take l p)) (drop l p) (written + l) ls
          → Sends (suc fuel) sw p written (l ∷ ls)
      resume cut (sw', e, sent, pending) = (
        sw',
        cut_round fuel sw p written l ls h cut
            ∙ e
            ∙ ap (λ t. some (sw', t, none)) (omega (arith, length-drop l p)),
        sent
            ∙ ap (λ s. s ++ cut_at ls (drop l p)) (sent-moved sw (take l p))
            ∙ append_assoc sw.writer.sent (take l p ∷ []) (cut_at ls (drop l p))
            ∙ ap (λ t. sw.writer.sent ++ t) (sym (cut_at_cut l ls p cut)),
        rw (after_le l ls (length p) (omega arith)) (rw (length-drop l p) at pending),
      )

  -- Over a connection that accepts everything, Write sends exactly the pieces that the pending
  -- lengths make of the slice, reports the whole slice, and keeps the lengths that are left.
  pub write-cut_at :
      (sw : Sw) (p : Bytes) (ls : List ℕ)
      → Pending sw ls
      → (sw' : Sw) × (write perfect it sw p ≡ some (sw', length p, none))
        × (sw'.writer.sent ≡ sw.writer.sent ++ cut_at ls p)
        × Pending sw' (after ls (length p))
  unfolding write
  write-cut_at sw p ls h =
      let (sw', e, sent, pending) = write_loop-Sends (suc (length p)) sw p 0 ls (omega arith) h in
      (sw', e ∙ ap (λ t. some (sw', t, none)) (omega arith), sent, pending)

-- A new writer with a repeated split has the lengths of its splits pending.
pub new_writer-Pending :
    (w : Writer) (c : Wire w) (splits : List RepeatedSplit)
    → Pending (new_writer w repeated_split c (clean_splits splits)) (expand splits)
unfolding new_writer
new_writer-Pending w c splits =
    Yields-Pending w repeated_split c (clean_splits splits) (expand splits)
      (clean_splits-Yields splits)
