-- ===== src/Split/Dialer.antt =====
-- transport/split/stream_dialer.go. The dialer has one iterator, a closure, and all writers of its
-- connections call it; so its state belongs to the dialer, and a writer works on the dialer's.
use bfx_outline_sdk.Prelude.{ℕ, ◌≡◌, List, ◌∷◌, ◌++◌, none, some, Option, length}
use bfx_outline_sdk.Io.{Bytes, Fault, Writer, Wire, perfect, Fallible}
use bfx_outline_sdk.Prelude.{inl, inr}
use bfx_outline_sdk.Split.Iterator.{SplitIterator, Yields}
use bfx_outline_sdk.Split.Writer.{SplitWriter, Pending, new_writer, write}
use bfx_outline_sdk.Split.Writer.Advance.{Yields-Pending}
use bfx_outline_sdk.Prelude.{refl, ap}
use bfx_outline_sdk.Split.Writer.Pieces.{cut_at, write-cut_at}

module _ (w : Writer) (it : SplitIterator) where
  -- DialStream, where the inner dialer returns a connection or an error: the state of the iterator
  -- afterwards, and the writer.
  unfoldable pub dial : it.State → Fallible (Wire w) → it.State × Fallible (SplitWriter w it)
  dial next_split (inl e) = (next_split, inl e)
  dial next_split (inr conn) = let sw = new_writer w it conn next_split in (sw.segments, inr sw)

  abbrev pub with_state :
      Option (SplitWriter w it × ℕ × Fault) → Option (it.State × SplitWriter w it × ℕ × Fault)
  with_state none = none
  with_state (some x) = some (x.0.segments, x.0, x.1, x.2)

  -- Write of a connection, on the iterator's state; `none` means that the fuel of Write ran out.
  unfoldable pub write_shared :
      it.State → SplitWriter w it → Bytes → Option (it.State × SplitWriter w it × ℕ × Fault)
  write_shared next_split sw p = with_state (write w it (record sw { segments = next_split }) p)

module _ (it : SplitIterator) where
  -- A connection that is dialled when the dialer has made another, which has written nothing, lacks the
  -- first split of the iterator: its first Write is cut at the lengths behind that one only, so if the
  -- iterator has one length, it is not cut at all.
  pub second_dial-cut_at :
      (s : it.State) (l : ℕ) (ls : List ℕ) (c1 c2 : Wire perfect) (p : Bytes)
      → Yields it s (l ∷ ls)
      → (sw1 : SplitWriter perfect it) × (sw2 : SplitWriter perfect it) × (sw' : SplitWriter perfect
          it)
        × (s1 : it.State) × (s2 : it.State) × (s' : it.State) × (dial perfect it s (inr c1)
            ≡ (s1, inr sw1))
        × Pending sw1 (l ∷ ls)
        × (dial perfect it s1 (inr c2) ≡ (s2, inr sw2))
        × (write_shared perfect it s2 sw2 p ≡ some (s', sw', length p, none))
        × (sw'.writer.sent ≡ c2.sent ++ cut_at ls p)
  unfolding dial write_shared new_writer
  second_dial-cut_at s l ls c1 c2 p h =
      let sw1 = new_writer perfect it c1 s in
      let sw2 = new_writer perfect it c2 sw1.segments in
      let pending = Yields-Pending perfect it c2 sw1.segments ls h.2 in
      let (sw', done, sent, left) = write-cut_at it sw2 p ls pending in
      (
        sw1,
        sw2,
        sw',
        sw1.segments,
        sw2.segments,
        sw'.segments,
        refl,
        h,
        refl,
        ap (with_state perfect it) done,
        sent,
      )
