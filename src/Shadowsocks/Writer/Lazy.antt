-- ===== src/Shadowsocks/Writer/Lazy.antt =====
-- LazyWrite of the Shadowsocks writer: it ends, and what it takes is sent or pending.
use bfx_outline_sdk.Prelude.{
  refl, take-append-drop, take_all, subst, length-drop, zero, ◌∙◌, Option-cases, inr, ap, inl, ◌==◌,
  Bool-cases, if◌then◌else◌, Bool, drop, Option, suc, some, length-take, ◌<◌, min, take, true, ◌-◌,
  none, ◌+◌, length-append, ◌≤◌, ℕ, length, ◌≡◌, arith,
}
use bfx_outline_sdk.Io.{Bytes, Fault, Writer}
use bfx_outline_sdk.Shadowsocks.Cipher.{Aead}
use bfx_outline_sdk.Shadowsocks.Writer.{
  Session, payload_size_mask, enqueue, flush, lazy_write_loop, lazy_write,
}
use bfx_outline_sdk.Shadowsocks.Writer.Sends.{
  Sends, Sends-then, enqueue-Sends, flush-Sends, flush-empties,
}

module _ (w : Writer) (salt : Bytes) (aead : Aead) where
  -- How LazyWrite of `p` may end, from `s`.
  abbrev pub Queues : Session w → Bytes → Session w → ℕ → Fault → Type 0
  Queues s p s' n err =
      (length s'.pending ≤ payload_size_mask)
      × (n ≤ length p)
      × (err ≡ none → (n ≡ length p) × Sends salt aead s s' p × (s'.need_flush ≡ true))

  -- The plaintext that fits is enqueued, and no more.
  pub enqueue-le :
      (s : Session w) (p : Bytes)
      → length s.pending ≤ payload_size_mask
      → length (enqueue w salt aead s p).0.pending ≤ payload_size_mask
  unfolding enqueue
  enqueue-le s p h = omega (
    arith,
    length-append s.pending (take (min (payload_size_mask - length s.pending) (length p)) p),
    length-take (min (payload_size_mask - length s.pending) (length p)) p,
  )

  pub enqueued :
      (s : Session w) (p : Bytes)
      → (enqueue w salt aead s p).1 ≡ min (payload_size_mask - length s.pending) (length p)
  unfolding enqueue
  enqueued s p = refl

  pub Sends-flag :
      {s s' : Session w} {p : Bytes} (b : Bool)
      → Sends salt aead s s' p
      → Sends salt aead s (record s' { need_flush = b }) p
  Sends-flag b h = record {
    chunks = h.chunks;
    sizes = h.sizes;
    sent_messages = h.sent_messages;
    counter_after = h.counter_after;
    plaintext = h.plaintext;
  }

  -- All of `p` is enqueued: the last round.
  Queues-last :
      (s : Session w) (p : Bytes)
      → length s.pending ≤ payload_size_mask
      → length (drop (enqueue w salt aead s p).1 p) ≡ 0
      → Queues s p
          (record (enqueue w salt aead s p).0 { need_flush = true })
          (enqueue w salt aead s p).1
          none
  Queues-last s p h e =
      let n = (enqueue w salt aead s p).1 in
      let le : length p ≤ n = omega (arith, length-drop n p) in
      (
        enqueue-le s p h,
        omega (arith, enqueued s p),
        λ z. (
          omega (arith, enqueued s p),
          Sends-flag true (
              subst (Sends salt aead s (enqueue w salt aead s p).0) (take_all n p le)
                (enqueue-Sends salt aead s p)),
          refl,
        ),
      )

  -- A round that flushes, and then the rounds after it.
  Queues-then :
      (s s' : Session w) (p : Bytes) (m : ℕ) (err : Fault)
      → length s.pending ≤ payload_size_mask
      → let s1 = (enqueue w salt aead s p).0 in
        let n = (enqueue w salt aead s p).1 in
        (flush w salt aead s1).1 ≡ none
        → Queues (flush w salt aead s1).0 (drop n p) s' m err
        → Queues s p s' (n + m) err
  Queues-then s s' p m err h f (hp, le, all) =
      let s1 = (enqueue w salt aead s p).0 in
      let n = (enqueue w salt aead s p).1 in
      (
        hp,
        omega (arith, enqueued s p, length-drop n p),
        λ z. (
          omega (arith, enqueued s p, length-drop n p, (all z).0),
          subst (Sends salt aead s s') (take-append-drop n p) (
              Sends-then salt aead (enqueue-Sends salt aead s p)
                (Sends-then salt aead (flush-Sends salt aead s1 (enqueue-le s p h) f) (all z).1)),
          (all z).2,
        ),
      )

  -- Fuel: a full buffer costs a round of its own.
  lazy_write_loop-Queues :
      (fuel : ℕ) (s : Session w) (p : Bytes) (queued : ℕ)
      → length s.pending ≤ payload_size_mask
      → length p + (length s.pending - (payload_size_mask - 1)) < fuel
      → (s' : Session w) × (n : ℕ) × (err : Fault) × (lazy_write_loop w salt aead fuel s p queued
          ≡ some (s', queued + n, err))
        × Queues s p s' n err
  unfolding lazy_write_loop
  lazy_write_loop-Queues zero s p queued h hf = absurd (omega arith)
  lazy_write_loop-Queues (suc fuel) s p queued h hf =
      let s1 = (enqueue w salt aead s p).0 in
      let n = (enqueue w salt aead s p).1 in
      let s2 = (flush w salt aead s1).0 in
      let again : Fault → Option (Session w × ℕ × Fault) = λ e. elim e [
        | none ↦ lazy_write_loop w salt aead fuel s2 (drop n p) (queued + n)
        | some e ↦ some (s2, queued + n, some e)
      ] in
      let branch : Bool → Option (Session w × ℕ × Fault) = λ b.
        if b
        then some (record s1 { need_flush = true }, queued + n, none)
        else again (flush w salt aead s1).1 in
      elim (Bool-cases (length (drop n p) == 0)) [
        | inl e ↦ (
          record s1 { need_flush = true },
          n,
          none,
          ap branch e,
          Queues-last s p h (ground arith),
        )
        | inr e ↦ elim (Option-cases (flush w salt aead s1).1) [
          | inl f ↦
              let empty = ap length (flush-empties salt aead s1) in
              let (s', m, err, eq, q) =
                lazy_write_loop-Queues fuel s2 (drop n p) (queued + n) (omega arith)
                  (ground (arith, enqueued s p, length-drop n p)) in
              (
                s',
                n + m,
                err,
                ap branch e ∙ ap again f ∙ eq ∙ ap (λ t. some (s', t, err)) (omega arith),
                Queues-then s s' p m err h f q,
              )
          | inr (err, f) ↦ (
            s2,
            n,
            some err,
            ap branch e ∙ ap again f,
            (
              omega (arith, ap length (flush-empties salt aead s1)),
              omega (arith, enqueued s p),
              λ z. absurd (cc z),
            ),
          )
        ]
      ]

  -- LazyWrite ends, and without an error it took all of `p`.
  pub lazy_write-Queues :
      (s : Session w) (p : Bytes)
      → length s.pending ≤ payload_size_mask
      → (s' : Session w) × (n : ℕ) × (err : Fault) × (lazy_write w salt aead s p
          ≡ some (s', n, err))
        × Queues s p s' n err
  unfolding lazy_write
  lazy_write-Queues s p h =
      let (s', n, err, eq, q) =
        lazy_write_loop-Queues (suc (suc (length p))) s p 0 h (omega arith) in
      (s', n, err, eq ∙ ap (λ t. some (s', t, err)) (omega arith), q)
