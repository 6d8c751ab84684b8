-- ===== src/Tls/HelloWriter/Stream.antt =====
-- What the base writer has received, and what is held back, at every point of a run of Writes.
use bfx_outline_sdk.Prelude.{
  drop_all, ==_iff, take-append-drop, subst, ℕ, suc, ◌+◌, ◌≡◌, ◌≤◌, refl, none, some, true, false,
  [], ◌∷◌, ◌++◌, length, take, drop, arith, ap, sym, ◌∙◌, append-nil, append_assoc,
}
use bfx_outline_sdk.Prelude.Int.{ℤ}
use bfx_outline_sdk.Io.{Bytes, Fault, Writer, send}
use bfx_outline_sdk.Io.Delivery.{stream, Delivers, send-Delivers}
use bfx_outline_sdk.Tls.Fragment.{fragment}
use bfx_outline_sdk.Tls.Buffer.Collect.{Buffers}
use bfx_outline_sdk.Tls.HelloWriter.{HelloWriter, flush_record, write_rest, flush_and_write}

module _ (w : Writer) (frag : Bytes → ℤ) (before : Bytes) where
  -- The first record is dealt with: what comes goes through.
  abbrev pub IsDecided : Bytes → Type 0
  IsDecided all = (t : Bytes) → fragment frag (all ++ t) ≡ fragment frag all ++ t

  -- `before` was sent before this writer was made, and `all` is what its Writes have taken.
  pub data Inv (s : HelloWriter w) (all : Bytes) : Type 0 where
    waiting :
        s.done ≡ false
        → s.record_buf ≡ none
        → Buffers s.hello_buf all
        → stream s.base ≡ before
        → Inv s all
    flushing :
        {rec : Bytes}
        → s.done ≡ false
        → s.record_buf ≡ some rec
        → stream s.base ++ rec ≡ before ++ fragment frag all
        → IsDecided all
        → Inv s all
    finished :
        s.done ≡ true → stream s.base ≡ before ++ fragment frag all → IsDecided all → Inv s all

  -- One Write: it takes the first n bytes of the slice, all of them if it reports no error.
  pub record Accepts (s : HelloWriter w) (all p : Bytes) (n : ℕ) (err : Fault) : Type 0 where
    pub inv : Inv s (all ++ take n p)
    pub count_le : n ≤ length p
    pub complete : err ≡ none → n ≡ length p

  IsDecided-append : (all t : Bytes) → IsDecided all → IsDecided (all ++ t)
  IsDecided-append all t h u =
      ap (fragment frag) (append_assoc all t u)
      ∙ h (t ++ u)
      ∙ sym (append_assoc (fragment frag all) t u)
      ∙ ap (λ x. x ++ u) (sym (h t))

  -- A Write that takes nothing.
  Inv-nil : (s : HelloWriter w) (all : Bytes) → Inv s all → Inv s (all ++ [])
  Inv-nil s all h = subst (Inv s) (sym (append-nil all)) h

  pub write_rest-Accepts :
      (s : HelloWriter w) (all p : Bytes) (n : ℕ)
      → s.done ≡ true
      → stream s.base ≡ before ++ fragment frag all
      → IsDecided all
      → let r = write_rest w frag s p n in (m : ℕ) × (r.1 ≡ n + m) × Accepts r.0 all p m r.2
  unfolding write_rest
  write_rest-Accepts s all [] n done sent dec = (
    0,
    omega arith,
    record {
      inv = Inv-nil s all (finished done sent dec);
      count_le = omega arith;
      complete = λ e. refl;
    },
  )
  write_rest-Accepts s all (b ∷ p) n done sent dec =
      let d = send-Delivers w s.base (b ∷ p) in
      let part = take (send w s.base (b ∷ p)).1 (b ∷ p) in
      (
        (send w s.base (b ∷ p)).1,
        refl,
        record {
          inv =
              finished done
                (d.accepted
                  ∙ ap (λ x. x ++ part) sent
                  ∙ append_assoc before (fragment frag all) part
                  ∙ ap (◌++◌ before) (sym (dec part)))
                (IsDecided-append all part dec);
          count_le = d.count_le;
          complete = d.complete;
        },
      )

  -- The record goes out, or what is left of it stays and there is an error.
  abbrev Flushed : HelloWriter w → Bytes → Fault → Type 0
  Flushed s all none = (s.done ≡ true) × (stream s.base ≡ before ++ fragment frag all)
  Flushed s all (some e) = Inv s all

  drop-nil : (n : ℕ) (p : Bytes) → drop n p ≡ [] → take n p ≡ p
  drop-nil n p e = sym (append-nil (take n p)) ∙ ap (◌++◌ (take n p)) (sym e) ∙ take-append-drop n p

  flush_all :
      (s : HelloWriter w) (all : Bytes) (b : ℕ) (rec : Bytes)
      → stream s.base ++ (b ∷ rec) ≡ before ++ fragment frag all
      → drop (send w s.base (b ∷ rec)).1 (b ∷ rec) ≡ []
      → stream (send w s.base (b ∷ rec)).0 ≡ before ++ fragment frag all
  flush_all s all b rec e left =
      (send-Delivers w s.base (b ∷ rec)).accepted
      ∙ ap (◌++◌ (stream s.base)) (drop-nil (send w s.base (b ∷ rec)).1 (b ∷ rec) left)
      ∙ e

  flush_record-Flushed :
      (s : HelloWriter w) (all rec : Bytes)
      → s.done ≡ false
      → stream s.base ++ rec ≡ before ++ fragment frag all
      → IsDecided all
      → let r = flush_record w frag s rec in Flushed r.0 all r.1
  unfolding flush_record
  flush_record-Flushed s all [] done e dec = (refl, sym (append-nil (stream s.base)) ∙ e)
  flush_record-Flushed s all (b ∷ rec) done e dec =
      go (send w s.base (b ∷ rec)).2 refl (drop (send w s.base (b ∷ rec)).1 (b ∷ rec)) refl
    where
      count : ℕ
      count = (send w s.base (b ∷ rec)).1

      out :
          Delivers s.base
            (send w s.base (b ∷ rec)).0
            (b ∷ rec)
            (send w s.base (b ∷ rec)).1
            (send w s.base (b ∷ rec)).2
      out = send-Delivers w s.base (b ∷ rec)

      kept :
          (left : Bytes)
          → drop (send w s.base (b ∷ rec)).1 (b ∷ rec) ≡ left
          → stream (send w s.base (b ∷ rec)).0 ++ left ≡ before ++ fragment frag all
      kept left le =
          ap (λ t. t ++ left) out.accepted
          ∙ append_assoc (stream s.base) (take count (b ∷ rec)) left
          ∙ ap (◌++◌ (stream s.base))
              (ap (◌++◌ (take count (b ∷ rec))) (sym le) ∙ take-append-drop count (b ∷ rec))
          ∙ e

      go :
          (err : Fault)
          → (send w s.base (b ∷ rec)).2 ≡ err
          → (left : Bytes) → drop (send w s.base (b ∷ rec)).1 (b ∷ rec) ≡ left
          → let r = flush_record w frag s (b ∷ rec) in Flushed r.0 all r.1
      go none er [] le =
          rw (flush_record, le, er, (==_iff count (suc (length rec))).1 (out.complete er))
            (refl, flush_all s all b rec e le)
      go none er (x ∷ left) le = cc (le, drop_all count (b ∷ rec) (omega (arith, out.complete er)))
      go (some f) er [] le =
          rw (flush_record, le, er) (finished refl (flush_all s all b rec e le) dec)
      go (some f) er (x ∷ left) le =
          rw (flush_record, le, er) (flushing done refl (kept (x ∷ left) le) dec)

  pub flush_and_write-Accepts :
      (s : HelloWriter w) (all rec p : Bytes) (n : ℕ)
      → s.done ≡ false
      → stream s.base ++ rec ≡ before ++ fragment frag all
      → IsDecided all
      → let r = flush_and_write w frag s rec p n in
        (m : ℕ) × (r.1 ≡ n + m) × Accepts r.0 all p m r.2
  unfolding flush_and_write
  flush_and_write-Accepts s all rec p n done e dec =
      go (flush_record w frag s rec).1 refl (flush_record-Flushed s all rec done e dec)
    where
      go :
          (err : Fault)
          → (flush_record w frag s rec).1 ≡ err
          → Flushed (flush_record w frag s rec).0 all (flush_record w frag s rec).1
          → let r = flush_and_write w frag s rec p n in
            (m : ℕ) × (r.1 ≡ n + m) × Accepts r.0 all p m r.2
      go none er h =
          rw (flush_and_write, er)
            (let (d, sent) = rw er at h in
              write_rest-Accepts (flush_record w frag s rec).0 all p n d sent dec)
      go (some f) er h =
          rw (flush_and_write, er)
            (
              0,
              omega arith,
              record {
                inv = Inv-nil _ all (rw er at h);
                count_le = omega arith;
                complete = λ x. cc;
              },
            )
