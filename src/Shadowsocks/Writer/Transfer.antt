-- ===== src/Shadowsocks/Writer/Transfer.antt =====
-- ReadFrom of the Shadowsocks writer: its loop, over any reader.
use bfx_outline_sdk.Prelude.{
  length-append, append_assoc, ◌∙◌, ◌+◌, length, ◌<◌, ap, append-nil, ℕ, sym, refl, ◌≡◌, arith, [],
  some, none, ◌++◌, zero, suc, ◌⊎◌, inl, inr, ◌≢◌,
}
use bfx_outline_sdk.Io.{GoError, send, Bytes, Fault, Writer, eof}
use bfx_outline_sdk.Io.Source.{Source, read, unread}
use bfx_outline_sdk.Io.Source.Reads.{remaining, read-unread, read-le, remaining-read}
use bfx_outline_sdk.Shadowsocks.Cipher.{Aead}
use bfx_outline_sdk.Shadowsocks.Writer.{
  Session, payload_size_mask, flush, flush_pending, transfer, or_flush,
}
use bfx_outline_sdk.Shadowsocks.Writer.Sends.{
  Sends, Sends-then, flush-Sends, flush-empties, Sends-nil, flush-cases,
}

-- The wrapped writer does not answer io.EOF, which ReadFrom takes for the end of its input.
abbrev pub NoEof : Writer → Type 0
NoEof w = (c : w.State) (p : Bytes) → (w.write c p).2 ≢ some eof

abbrev pub NoneOrEof : Fault → Type 0
NoneOrEof e = (e ≡ none) ⊎ (e ≡ some eof)

module _ (w : Writer) (salt : Bytes) (aead : Aead) where
  pub flush-not_eof : NoEof w → (s : Session w) → (flush w salt aead s).1 ≢ some eof
  unfolding flush_pending send
  flush-not_eof honest s e = elim (flush-cases salt aead s) [
    | inl (z, f) ↦ absurd (cc (e, ap (λ r. r.1) f))
    | inr (k, f) ↦ honest _ _ (sym (ap (λ r. r.1) f) ∙ e)
  ]

  pub or_flush-none : (a b : Fault) → or_flush w salt aead a b ≡ none → a ≡ none
  or_flush-none a none e = e
  or_flush-none a (some x) e = absurd (cc e)

  pub or_flush-NoneOrEof :
      (a b : Fault) → b ≢ some eof → NoneOrEof (or_flush w salt aead a b) → b ≡ none
  or_flush-NoneOrEof a none h k = refl
  or_flush-NoneOrEof a (some x) h (inl z) = absurd (cc z)
  or_flush-NoneOrEof a (some x) h (inr z) = absurd (h z)

  -- From `s`, with the error `err` at hand, the loop ends in `s'` with `n` bytes read and the error
  -- `e`. If that is io.EOF, all that was read is sent.
  pub record Transfers (s : Session w) (err : Fault) (src : Source) (s' : Session w) (n : ℕ)
      (e : GoError) (src' : Source) : Type 0 where
    pub taken : Bytes
    pub taken-unread : taken ++ unread src' ≡ unread src
    pub count : length taken ≡ n
    pub empties : s'.pending ≡ []
    pub complete : e ≡ eof → NoneOrEof err × Sends salt aead s s' taken

  -- The read bytes stand in the empty buffer.
  loaded-Sends :
      (s : Session w) (c : Bytes) → s.pending ≡ [] → Sends salt aead s (record s { pending = c }) c
  loaded-Sends s c z = record {
    chunks = [];
    sizes = tt;
    sent_messages = sym (append-nil s.writer.sent);
    counter_after = refl;
    plaintext = ap (λ xs. xs ++ c) (sym z);
  }

  -- A round of the loop, and then the rounds after it.
  Transfers-then :
      (s s' : Session w) (src src' : Source) (n : ℕ) (e : GoError)
      → NoEof w
      → s.pending ≡ []
      → let (c, err, src1) = read payload_size_mask src in
        let s1 : Session w = record s { pending = c } in
        Transfers
          (flush w salt aead s1).0
          (or_flush w salt aead err (flush w salt aead s1).1)
          src1
          s'
          n
          e
          src'
        → Transfers s none src s' (length c + n) e src'
  Transfers-then s s' src src' n e honest z h =
      let c = (read payload_size_mask src).0 in
      let s1 : Session w = record s { pending = c } in
      record {
        taken = c ++ h.taken;
        taken-unread =
            append_assoc c h.taken (unread src')
            ∙ ap (◌++◌ c) h.taken-unread
            ∙ read-unread payload_size_mask src;
        count = length-append c h.taken ∙ ap (λ m. length c + m) h.count;
        empties = h.empties;
        complete = λ k.
            let ok =
              or_flush-NoneOrEof (read payload_size_mask src).1 (flush w salt aead s1).1
                (flush-not_eof honest s1) (h.complete k).0 in
            (
              inl refl,
              Sends-then salt aead (loaded-Sends s c z) (
                  Sends-then salt aead (flush-Sends salt aead s1 (read-le payload_size_mask src) ok)
                    (h.complete k).1),
            );
      }

  pub transfer-Transfers :
      NoEof w
      → (fuel : ℕ) (s : Session w) (written : ℕ) (err : Fault) (src : Source) → s.pending ≡ []
      → (err ≡ none → remaining src < fuel)
      → (s' : Session w) × (n : ℕ) × (e : GoError) × (src' : Source) × (transfer w salt aead fuel s
            written err src
          ≡ some (s', written + n, e, src'))
        × Transfers s err src s' n e src'
  unfolding transfer
  transfer-Transfers honest fuel s written (some e) src z h = (
    s,
    0,
    e,
    src,
    ap (λ t. some (s, t, e, src)) (omega arith),
    record {
      taken = [];
      taken-unread = refl;
      count = refl;
      empties = z;
      complete = λ k. (inr (ap some k), Sends-nil salt aead s);
    },
  )
  transfer-Transfers honest zero s written none src z h = absurd (omega (arith, h refl))
  transfer-Transfers honest (suc fuel) s written none src z h =
      let (c, err, src1) = read payload_size_mask src in
      let s1 : Session w = record s { pending = c } in
      let (s', n, e, src', eq, t) =
        transfer-Transfers honest fuel (flush w salt aead s1).0 (written + length c)
          (or_flush w salt aead err (flush w salt aead s1).1) src1 (flush-empties salt aead s1)
          (λ k. omega (
            arith,
            h refl,
            remaining-read payload_size_mask src (omega arith) (or_flush-none err _ k),
          )) in
      (
        s',
        length c + n,
        e,
        src',
        eq ∙ ap (λ m. some (s', m, e, src')) (omega arith),
        Transfers-then s s' src src' n e honest z t,
      )
