-- ===== src/Shadowsocks/Writer/Sends.antt =====
-- The messages on the wire that a Shadowsocks writer makes of its plaintext.
use bfx_outline_sdk.Prelude.{
  length-nil, Bool-cases, Bool, ◌⊎◌, ◌≡◌, arith, ◌==◌, inl, inr, subst, arith, refl, ◌∙◌, ap₂,
  append_assoc, flatten-append, take_all, append-nil, sym, take, flatten, none, All-append, ap,
  ◌++◌, ◌≡◌, ◌∷◌, ◌≤◌, All, List, [], length, ◌<◌, if◌then◌else◌,
}
use bfx_outline_sdk.Io.{Bytes, Fault, Writer, send}
use bfx_outline_sdk.Shadowsocks.Nonce.{increment, is_zero}
use bfx_outline_sdk.Shadowsocks.Cipher.{Aead}
use bfx_outline_sdk.Shadowsocks.Writer.{
  Session, payload_size_mask, uint16_be, encrypt_block, enqueue, flush_pending, flush,
}

-- The counter after the messages of so many chunks: each takes two nonces.
abbrev pub after_chunks : List Bytes → Bytes → Bytes
after_chunks [] counter = counter
after_chunks (p ∷ ps) counter = after_chunks ps (increment (increment counter))

pub after_chunks-append :
    (cs ds : List Bytes) (counter : Bytes)
    → after_chunks (cs ++ ds) counter ≡ after_chunks ds (after_chunks cs counter)
after_chunks-append [] ds counter = refl
after_chunks-append (p ∷ cs) ds counter = after_chunks-append cs ds (increment (increment counter))

module _ (salt : Bytes) (aead : Aead) where
  -- The message of one chunk: its length and its bytes, each sealed under a nonce of its own. The
  -- salt stands in front of the message with the nonce zero.
  abbrev pub chunk_message : Bytes → Bytes → Bytes
  chunk_message counter p =
      (if is_zero counter then salt else [])
      ++ aead.seal counter (uint16_be (length p))
      ++ aead.seal (increment counter) p

  abbrev pub messages : Bytes → List Bytes → List Bytes
  messages counter [] = []
  messages counter (p ∷ ps) = chunk_message counter p ∷ messages (increment (increment counter)) ps

  pub messages-append :
      (cs ds : List Bytes) (counter : Bytes)
      → messages counter (cs ++ ds) ≡ messages counter cs ++ messages (after_chunks cs counter) ds
  messages-append [] ds counter = refl
  messages-append (p ∷ cs) ds counter =
      ap (λ ms. chunk_message counter p ∷ ms)
        (messages-append cs ds (increment (increment counter)))

-- A chunk is never empty and its length fits in the size field.
abbrev pub ChunkSize : Bytes → Type 0
ChunkSize p = (0 < length p) × (length p ≤ payload_size_mask)

module _ {w : Writer} (salt : Bytes) (aead : Aead) where
  -- From `s` to `s'` the plaintext `p` was taken: the chunks `cs` of it are sent, in order, each in
  -- a message of its own, and the rest is pending.
  pub record Sends (s s' : Session w) (p : Bytes) : Type 0 where
    pub chunks : List Bytes
    pub sizes : All ChunkSize chunks
    pub sent_messages : s'.writer.sent ≡ s.writer.sent ++ messages salt aead s.counter chunks
    pub counter_after : s'.counter ≡ after_chunks chunks s.counter
    pub plaintext : flatten chunks ++ s'.pending ≡ s.pending ++ p

  pub Sends-then :
      {s s' s'' : Session w} {p q : Bytes} → Sends s s' p → Sends s' s'' q → Sends s s'' (p ++ q)
  Sends-then {s} {s'} {s''} {p} {q} h k = record {
    chunks = h.chunks ++ k.chunks;
    sizes = All-append ChunkSize h.chunks k.chunks h.sizes k.sizes;
    sent_messages =
        k.sent_messages
        ∙ ap₂ (λ xs c. xs ++ messages salt aead c k.chunks) h.sent_messages h.counter_after
        ∙ append_assoc s.writer.sent (messages salt aead s.counter h.chunks)
            (messages salt aead (after_chunks h.chunks s.counter) k.chunks)
        ∙ ap (◌++◌ s.writer.sent) (sym (messages-append salt aead h.chunks k.chunks s.counter));
    counter_after =
        k.counter_after
        ∙ ap (after_chunks k.chunks) h.counter_after
        ∙ sym (after_chunks-append h.chunks k.chunks s.counter);
    plaintext =
        ap (λ xs. xs ++ s''.pending) (flatten-append h.chunks k.chunks)
        ∙ append_assoc (flatten h.chunks) (flatten k.chunks) s''.pending
        ∙ ap (◌++◌ (flatten h.chunks)) k.plaintext
        ∙ sym (append_assoc (flatten h.chunks) s'.pending q)
        ∙ ap (λ xs. xs ++ q) h.plaintext
        ∙ append_assoc s.pending p q;
  }

  pub Sends-nil : (s : Session w) → Sends s s []
  Sends-nil s = record {
    chunks = [];
    sizes = tt;
    sent_messages = sym (append-nil s.writer.sent);
    counter_after = refl;
    plaintext = sym (append-nil s.pending);
  }

  pub enqueue-Sends :
      (s : Session w) (p : Bytes)
      → Sends s (enqueue w salt aead s p).0 (take (enqueue w salt aead s p).1 p)
  unfolding enqueue
  enqueue-Sends s p = record {
    chunks = [];
    sizes = tt;
    sent_messages = sym (append-nil s.writer.sent);
    counter_after = refl;
    plaintext = refl;
  }

  pub flush_pending-Sends :
      (s : Session w)
      → ChunkSize s.pending
      → (flush_pending w salt aead s).1 ≡ none
      → Sends s (flush_pending w salt aead s).0 []
  unfolding flush_pending encrypt_block send
  flush_pending-Sends s h e =
      let m = chunk_message salt aead s.counter s.pending in
      let full = w.write_full s.writer.state m e in
      record {
        chunks = s.pending ∷ [];
        sizes = (h, tt);
        sent_messages =
            ap (λ m. s.writer.sent ++ m ∷ [])
              (take_all _ (chunk_message salt aead s.counter s.pending) (omega (arith, full)));
        counter_after = refl;
        plaintext = append-nil (s.pending ++ []);
      }

  -- The two branches of flush.
  pub flush-cases :
      (s : Session w)
      → ((s.pending ≡ []) × (flush w salt aead s ≡ (s, none)))
        ⊎ ((0 < length s.pending) × (flush w salt aead s ≡ flush_pending w salt aead s))
  unfolding flush
  flush-cases s =
      let branch : Bool → Session w × Fault =
        λ b. if b then (s, none) else flush_pending w salt aead s in
      elim (Bool-cases (length s.pending == 0)) [
        | inl e ↦ inl (length-nil s.pending (ground arith), ap branch e)
        | inr e ↦ inr (ground arith, ap branch e)
      ]

  pub flush-Sends :
      (s : Session w)
      → length s.pending ≤ payload_size_mask
      → (flush w salt aead s).1 ≡ none
      → Sends s (flush w salt aead s).0 []
  flush-Sends s h e = elim (flush-cases s) [
    | inl (z, f) ↦ subst (λ r. Sends s r.0 []) (sym f) (Sends-nil s)
    | inr (k, f) ↦
        subst (λ r. Sends s r.0 []) (sym f)
          (flush_pending-Sends s (k, h) (sym (ap (λ r. r.1) f) ∙ e))
  ]

  pub flush-empties : (s : Session w) → (flush w salt aead s).0.pending ≡ []
  unfolding flush_pending encrypt_block
  flush-empties s = elim (flush-cases s) [
    | inl (z, f) ↦ ap (λ r. r.0.pending) f ∙ z
    | inr (k, f) ↦ ap (λ r. r.0.pending) f
  ]
