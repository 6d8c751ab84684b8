-- ===== src/Tls/HelloWriter/Write.antt =====
-- Write of clientHelloFragWriter, in every state and over any base writer.
use bfx_outline_sdk.Prelude.{
  length-drop, ℕ, ◌+◌, ◌≡◌, ◌≤◌, refl, Option, none, some, true, false, [], ◌++◌, length, take,
  drop, arith, ap, ap₂, sym, ◌∙◌, append-nil, append_assoc, subst, take-append-take,
}
use bfx_outline_sdk.Prelude.Int.{ℤ}
use bfx_outline_sdk.Io.{Bytes, GoError, Fault, Writer, client_hello_received}
use bfx_outline_sdk.Io.Delivery.{stream}
use bfx_outline_sdk.Tls.Fragment.{
  IsHello, IsInvalid, fragment, split_at, fragment-IsHello, fragment-IsInvalid,
}
use bfx_outline_sdk.Tls.Buffer
use bfx_outline_sdk.Tls.Buffer.{HelloBuffer, new_buffer}
use bfx_outline_sdk.Tls.Buffer.Collect.{Buffers, Verdict, Collects}
use bfx_outline_sdk.Tls.Buffer.Write.{write-Collects}
use bfx_outline_sdk.Tls.HelloWriter.{write_rest, HelloWriter, record_for, write_undone, write}
use bfx_outline_sdk.Tls.HelloWriter.Records.{split_hello-split_at}
use bfx_outline_sdk.Tls.HelloWriter.Stream.{
  IsDecided, Inv, Accepts, write_rest-Accepts, flush_and_write-Accepts,
}

module _ (w : Writer) (frag : Bytes → ℤ) (before : Bytes) where
  IsHello-decides :
      (all : Bytes)
      → IsHello all
      → (fragment frag all ≡ split_at frag all) × IsDecided w frag before all
  IsHello-decides all h = (now, λ t. fragment-IsHello frag all t h ∙ ap (λ x. x ++ t) (sym now))
    where
      now : fragment frag all ≡ split_at frag all
      now =
          ap (fragment frag) (sym (append-nil all))
          ∙ fragment-IsHello frag all [] h
          ∙ append-nil (split_at frag all)

  IsInvalid-decides :
      (all : Bytes) → IsInvalid all → (fragment frag all ≡ all) × IsDecided w frag before all
  IsInvalid-decides all h = (now, λ t. fragment-IsInvalid frag all t h ∙ ap (λ x. x ++ t) (sym now))
    where
      now : fragment frag all ≡ all
      now =
          ap (fragment frag) (sym (append-nil all))
          ∙ fragment-IsInvalid frag all [] h
          ∙ append-nil all

  -- The record that Write makes once the buffer refuses more bytes.
  record_for-fragment :
      (e : GoError) (b : HelloBuffer) (all : Bytes)
      → b.bytes ≡ all
      → Verdict b all (some e)
      → (record_for w frag e b.bytes ≡ fragment frag all) × IsDecided w frag before all
  record_for-fragment client_hello_received b all eq h =
      let (now, dec) = IsHello-decides all h in
      (
        ap (record_for w frag client_hello_received) eq ∙ split_hello-split_at frag all h ∙ sym now,
        dec,
      )
  record_for-fragment _ b all eq h = let (now, dec) = IsInvalid-decides all h in (eq ∙ sym now, dec)

  -- A Write that went on after the first `k` bytes of the slice.
  Accepts-then :
      (s : HelloWriter w) (all p : Bytes) (k n m : ℕ) (err : Fault)
      → k ≤ length p
      → n ≡ k + m
      → Accepts w frag before s (all ++ take k p) (drop k p) m err
      → Accepts w frag before s all p n err
  Accepts-then s all p k n m err le e h = record {
    inv =
        subst (Inv w frag before s)
          (append_assoc all (take k p) (take m (drop k p))
            ∙ ap (◌++◌ all) (take-append-take k m p ∙ ap (λ j. take j p) (sym e)))
          h.inv;
    count_le = omega (arith, h.count_le, length-drop k p);
    complete = λ x. omega (arith, h.complete x, length-drop k p);
  }

  same_count :
      (s : HelloWriter w) (all p : Bytes) (n m : ℕ) (err : Fault)
      → n ≡ 0 + m
      → Accepts w frag before s all p m err
      → Accepts w frag before s all p n err
  same_count s all p n m err e h = subst (λ k. Accepts w frag before s all p k err) (omega arith) h

  write_flushing :
      (s : HelloWriter w) (all p rec : Bytes)
      → s.done ≡ false
      → stream s.base ++ rec ≡ before ++ fragment frag all
      → IsDecided w frag before all
      → let r = write_undone w frag s (some rec) p in Accepts w frag before r.0 all p r.1 r.2
  unfolding write_undone
  write_flushing s all p rec done sent dec =
      let (m, e, acc) = flush_and_write-Accepts w frag before s all rec p 0 done sent dec in
      same_count _ all p _ m _ e acc

  write_waiting :
      (s : HelloWriter w) (all p : Bytes)
      → s.done ≡ false
      → Buffers s.hello_buf all
      → stream s.base ≡ before
      → s.record_buf ≡ none
      → let r = write_undone w frag s none p in Accepts w frag before r.0 all p r.1 r.2
  unfolding write_undone
  write_waiting s all p done h sent none_yet =
      go (Buffer.write s.hello_buf p).2 refl (write-Collects s.hello_buf all p h)
    where
      go :
          (err : Fault)
          → (Buffer.write s.hello_buf p).2 ≡ err
          → (let r = Buffer.write s.hello_buf p in Collects all p r.0 r.1 r.2)
          → let r = write_undone w frag s none p in Accepts w frag before r.0 all p r.1 r.2
      go none er c =
          rw (write_undone, er)
            (record {
              inv = Inv.waiting done none_yet (rw er at c.verdict) sent;
              count_le = c.count_le;
              complete = λ _. c.complete er;
            })
      go (some e) er c =
          rw (write_undone, er)
            (let (b, n, _) = Buffer.write s.hello_buf p in
              let (now, dec) =
                record_for-fragment e b (all ++ take n p) c.bytes_are (rw er at c.verdict) in
              let rec = record_for w frag e b.bytes in
              let (m, eq, acc) =
                flush_and_write-Accepts w frag before
                  (record s { hello_buf = b; record_buf = some rec }) (all ++ take n p) rec
                  (drop n p) n done (ap₂ ◌++◌ sent now) dec in
              Accepts-then _ all p n _ m _ c.count_le eq acc)

  write_is :
      (s : HelloWriter w) (p : Bytes) {r : Option Bytes}
      → s.done ≡ false
      → s.record_buf ≡ r
      → write w frag s p ≡ write_undone w frag s r p
  unfolding write
  write_is s p d e = ground arith

  write_done :
      (s : HelloWriter w) (p : Bytes) → s.done ≡ true → write w frag s p ≡ write_rest w frag s p 0
  unfolding write
  write_done s p d = ground arith

  -- Write of clientHelloFragWriter over any base writer: the invariant goes on with the bytes that
  -- it reports as taken, and it takes all of them unless it reports an error.
  pub write-Accepts :
      (s : HelloWriter w) (all p : Bytes)
      → Inv w frag before s all
      → let r = write w frag s p in Accepts w frag before r.0 all p r.1 r.2
  write-Accepts s all p (Inv.waiting d e h sent) =
      rw (write_is s p d e) (write_waiting s all p d h sent e)
  write-Accepts s all p (Inv.flushing {rec} d e sent dec) =
      rw (write_is s p d e) (write_flushing s all p rec d sent dec)
  write-Accepts s all p (Inv.finished d sent dec) =
      let (m, e, acc) = write_rest-Accepts w frag before s all p 0 d sent dec in
      rw (write_done s p d) (same_count _ all p _ m _ e acc)
