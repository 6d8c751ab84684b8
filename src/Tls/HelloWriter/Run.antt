-- ===== src/Tls/HelloWriter/Run.antt =====
-- A run of Writes on a new clientHelloFragWriter.
use bfx_outline_sdk.Prelude.{
  if◌then◌else◌, inr, inl, ◌≡◌, refl, none, some, List, [], ◌∷◌, ◌++◌, take, arith, ap, sym, ◌∙◌,
  append-nil, append_assoc, subst,
}
use bfx_outline_sdk.Prelude.Int.{ℤ}
use bfx_outline_sdk.Io.{Bytes, Writer, Wire}
use bfx_outline_sdk.Io.Delivery.{stream}
use bfx_outline_sdk.Tls.Fragment.{fragment, fragment_short, fragment_partial}
use bfx_outline_sdk.Tls.Buffer.{HelloBuffer, new_buffer}
use bfx_outline_sdk.Tls.Buffer.Collect.{Buffers}
use bfx_outline_sdk.Tls.HelloWriter.{HelloWriter, new_hello_writer, write}
use bfx_outline_sdk.Tls.HelloWriter.Stream.{Inv}
use bfx_outline_sdk.Tls.HelloWriter.Write.{write-Accepts}

-- What w.record holds, which a writer that is done does not read again.
pub held : {w : Writer} → HelloWriter w → Bytes
held s = if s.done then [] else elim s.record_buf [ none ↦ [] | some rec ↦ rec ]

module _ (w : Writer) (frag : Bytes → ℤ) where
  -- The writer after a Write of each slice in turn, with the bytes that the Writes report as taken.
  unfoldable pub run : HelloWriter w → List Bytes → HelloWriter w × Bytes
  run s [] = (s, [])
  run s (p ∷ ps) =
      let (s', n, _) = write w frag s p in
      let (last, taken) = run s' ps in (last, take n p ++ taken)

  pub new_hello_writer-Inv : (c : Wire w) → Inv w frag (stream c) (new_hello_writer w frag c) []
  unfolding new_hello_writer new_buffer
  new_hello_writer-Inv c =
      Inv.waiting refl refl
        (record { bytes_are = refl; no_error = refl; stage = inl (omega arith) }) refl

  run-Inv :
      (before : Bytes) (s : HelloWriter w) (all : Bytes) (ps : List Bytes)
      → Inv w frag before s all
      → Inv w frag before (run s ps).0 (all ++ (run s ps).1)
  unfolding run
  run-Inv before s all [] h = subst (Inv w frag before s) (sym (append-nil all)) h
  run-Inv before s all (p ∷ ps) h =
      let (s', n, err) = write w frag s p in
      subst (Inv w frag before (run s' ps).0) (append_assoc all (take n p) (run s' ps).1)
        (run-Inv before s' (all ++ take n p) ps (write-Accepts w frag before s all p h).inv)

  Buffers-fragment : {b : HelloBuffer} (all : Bytes) → Buffers b all → fragment frag all ≡ []
  Buffers-fragment all h = elim h.stage [
    | inl short ↦ fragment_short frag all short
    | inr (_, valid, _, less) ↦ fragment_partial frag all valid less
  ]

  Inv-stream :
      (before : Bytes) (s : HelloWriter w) (all : Bytes)
      → Inv w frag before s all
      → stream s.base ++ held s ≡ before ++ fragment frag all
  unfolding held
  Inv-stream before s all (Inv.waiting d e h sent) =
      rw (d, e)
        (append-nil (stream s.base)
          ∙ sent
          ∙ sym (append-nil before)
          ∙ ap (◌++◌ before) (sym (Buffers-fragment all h)))
  Inv-stream before s all (Inv.flushing d e sent dec) = rw (d, e) sent
  Inv-stream before s all (Inv.finished d sent dec) = rw d (append-nil (stream s.base) ∙ sent)

  -- After any Writes on a new clientHelloFragWriter, over any base writer and with any errors, the
  -- base has received, up to the part of the record that a failed flush still holds, exactly what
  -- the specification makes of the bytes that the Writes reported as taken: nothing while the first
  -- record is incomplete, then its two records and all that follows, or the bytes unchanged.
  pub run-fragment :
      (c : Wire w) (ps : List Bytes)
      → let (s, taken) = run (new_hello_writer w frag c) ps in
        stream s.base ++ held s ≡ stream c ++ fragment frag taken
  run-fragment c ps =
      Inv-stream (stream c) _ _
        (run-Inv (stream c) (new_hello_writer w frag c) [] ps (new_hello_writer-Inv c))
