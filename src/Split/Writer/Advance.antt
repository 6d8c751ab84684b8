-- ===== src/Split/Writer/Advance.antt =====
-- How `advance` moves a split writer through the lengths that are pending.
use native.Mathlib.Decide.{dec_lt}
use bfx_outline_sdk.Prelude.{
  ℕ, ◌+◌, ◌-◌, ◌≤◌, ◌≡◌, ◌<◌, refl, ap, ◌∙◌, List, [], ◌∷◌, ◌&&◌, true, false, ◌⊎◌, if◌then◌else◌,
  ltb, arith,
}
use bfx_outline_sdk.Prelude.Int.{ℤ, pos, ltb_ℤ}
use bfx_outline_sdk.Io.{Writer, Wire}
use bfx_outline_sdk.Split.Iterator.{SplitIterator, Yields}
use bfx_outline_sdk.Split.Writer.{SplitWriter, advance, Pending}

-- The lengths that are left when `n` more bytes of the stream have gone by.
pub after : List ℕ → ℕ → List ℕ
after [] n = []
after (l ∷ ls) n = if ltb n l then (l - n) ∷ ls else after ls (n - l)

pub after_lt : (l : ℕ) (ls : List ℕ) (n : ℕ) → n < l → after (l ∷ ls) n ≡ (l - n) ∷ ls
unfolding after
after_lt l ls n h = ground arith

pub after_le : (l : ℕ) (ls : List ℕ) (n : ℕ) → l ≤ n → after (l ∷ ls) n ≡ after ls (n - l)
unfolding after
after_le l ls n h = ground arith

pub after-after : (ls : List ℕ) (n m : ℕ) → after (after ls n) m ≡ after ls (n + m)
after-after [] n m = unfold after in refl
after-after (l ∷ ls) n m = elim (dec_lt n l) [
  | yes short ↦ rw (after_lt l ls n short) (elim (dec_lt (n + m) l) [
    | yes p ↦
        rw (after_lt l ls (n + m) p, after_lt (l - n) ls m (omega arith))
          (ap (λ k. k ∷ ls) (omega arith))
    | no p ↦
        rw (after_le l ls (n + m) (omega arith), after_le (l - n) ls m (omega arith))
          (ap (after ls) (omega arith))
  ])
  | no long ↦
      rw
        (
          after_le l ls n (omega arith),
          after_le l ls (n + m) (omega arith),
          after-after ls (n - l) m,
        )
        (ap (after ls) (omega arith))
]

module _ (w : Writer) (it : SplitIterator) where
  Yields-zero : (s : it.State) (ls : List ℕ) → Yields it s ls → after ls 0 ≡ ls
  Yields-zero s [] h = unfold after in refl
  Yields-zero s (l ∷ ls) h = after_lt l ls 0 h.1 ∙ ap (λ k. k ∷ ls) (omega arith)

  pub after_eq : (s : it.State) (l : ℕ) (ls : List ℕ) → Yields it s ls → after (l ∷ ls) l ≡ ls
  after_eq s l ls h = after_le l ls l (omega arith) ∙ ap (after ls) zero_left ∙ Yields-zero s ls h
    where
      zero_left : l - l ≡ 0
      zero_left = omega arith

  advance_lt :
      (sw : SplitWriter w it) (l n : ℕ)
      → sw.next_split_bytes ≡ pos l
      → n < l
      → advance w it sw n ≡ record sw { next_split_bytes = pos (l - n) }
  unfolding advance
  advance_lt sw l n h lt = ground arith

  advance_eq :
      (sw : SplitWriter w it) (l : ℕ)
      → sw.next_split_bytes ≡ pos l
      → 0 < l
      → advance w it sw l ≡ record sw {
        next_split_bytes = (it.next sw.segments).1;
        segments = (it.next sw.segments).0;
      }
  unfolding advance
  advance_eq sw l h lt = ground arith

  advance_done :
      (sw : SplitWriter w it) (n : ℕ) → sw.next_split_bytes ≡ pos 0 → advance w it sw n ≡ sw
  unfolding advance
  advance_done sw n h = ground arith

  pub Yields-Pending :
      (c : Wire w) (s : it.State) (ls : List ℕ)
      → Yields it s ls
      → Pending {it = it}
          (record { writer = c; next_split_bytes = (it.next s).1; segments = (it.next s).0 })
          ls
  Yields-Pending c s [] h = h
  Yields-Pending c s (l ∷ ls) h = h

  pub advance-Pending :
      (sw : SplitWriter w it) (ls : List ℕ) (n : ℕ)
      → Pending sw ls
      → ((l : ℕ) → sw.next_split_bytes ≡ pos l → 0 < l → n ≤ l)
      → Pending (advance w it sw n) (after ls n)
  advance-Pending sw [] n h le = rw (advance_done sw n h) (unfold after in h)
  advance-Pending sw (l ∷ ls) n h le = elim (dec_lt n l) [
    | yes p ↦ rw (after_lt l ls n p, advance_lt sw l n h.0 p) (refl, omega arith, h.2)
    | no p ↦
        let e : n ≡ l = omega (arith, le l h.0 h.1) in
        rw e (
          rw (advance_eq sw l h.0 h.1, after_eq sw.segments l ls h.2)
            (Yields-Pending sw.writer sw.segments ls h.2))
  ]

  pub advance-writer : (sw : SplitWriter w it) (n : ℕ) → (advance w it sw n).writer ≡ sw.writer
  unfolding advance
  advance-writer sw n = ground arith

pub cut_test :
    (next : ℤ) (l m : ℕ)
    → next ≡ pos l
    → 0 < l
    → l < m
    → (ltb_ℤ (pos 0) next && ltb_ℤ next (pos m)) ≡ true
cut_test next l m e h k = ground arith

pub stop_test :
    (next : ℤ) (l m : ℕ)
    → next ≡ pos l
    → (l ≡ 0) ⊎ (m ≤ l)
    → (ltb_ℤ (pos 0) next && ltb_ℤ next (pos m)) ≡ false
stop_test next l m e h = ground arith
