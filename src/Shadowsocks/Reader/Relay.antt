-- ===== src/Shadowsocks/Reader/Relay.antt =====
-- A writer and a reader of Shadowsocks streams at the two ends of a connection.
use bfx_outline_sdk.Prelude.{
  Option, if◌then◌else◌, length-append, ℕ, suc, ◌*◌, ◌^◌, ◌≡◌, ◌++◌, none, some, [], ◌∷◌, length,
  arith, refl, sym, ap, ◌∙◌, List, ◌≤◌, ◌<◌, inr, inl, flatten, append_assoc, append-nil, subst,
  All, replicate, Bool-cases, false,
}
use bfx_outline_sdk.Io.{Bytes, Fallible, Fault, Writer, Wire}
use bfx_outline_sdk.Io.Source.{Source, unread}
use bfx_outline_sdk.Io.Source.Full.{Smooth}
use bfx_outline_sdk.Shadowsocks.Nonce.{is_zero, increment}
use bfx_outline_sdk.Shadowsocks.Cipher.{Aead}
use bfx_outline_sdk.Shadowsocks.Writer.{Session, new_session, read_from, uint16_be}
use bfx_outline_sdk.Shadowsocks.Writer.Sends.{ChunkSize, Sends, messages, chunk_message}
use bfx_outline_sdk.Shadowsocks.Writer.Salt.{messages-salted_once}
use bfx_outline_sdk.Shadowsocks.Writer.Transfer.{NoEof}
use bfx_outline_sdk.Shadowsocks.Writer.Input.{Reads}
use bfx_outline_sdk.Shadowsocks.Writer.ReadFrom.{read_from-Reads}
use bfx_outline_sdk.Shadowsocks.Reader.{new_reader, write_to}
use bfx_outline_sdk.Shadowsocks.Reader.Chunks.{frames}
use bfx_outline_sdk.Shadowsocks.Reader.Upcoming.{SessionKey, stream}
use bfx_outline_sdk.Shadowsocks.Reader.Carries.{Carries}
use bfx_outline_sdk.Shadowsocks.Reader.Drains.{Drains, Written, write_to-Drains}

-- As many chunks as bytes at most.
length-chunks : (ps : List Bytes) → All ChunkSize ps → length ps ≤ length (flatten ps)
length-chunks [] h = omega arith
length-chunks (p ∷ ps) (h, hs) =
    omega (arith, length-chunks ps hs, length-append p (flatten ps), h.0)

module _ (salt : Bytes) (aead : Aead) where
  chunk_message-frames :
      (c p rest : Bytes)
      → chunk_message [] aead c p ++ rest
        ≡ aead.seal c (uint16_be (length p)) ++ (aead.seal (increment c) p ++ rest)
  chunk_message-frames c p rest =
      let size = aead.seal c (uint16_be (length p)) in
      let body = aead.seal (increment c) p in
      let unsalted : (if is_zero c then [] else []) ≡ [] = elim (Bool-cases (is_zero c)) [
        | inl e ↦ rw e refl
        | inr e ↦ rw e refl
      ] in
      ap (λ x. (x ++ size ++ body) ++ rest) unsalted ∙ append_assoc size body rest

  flatten-messages :
      (c : Bytes) (ps : List Bytes) → flatten (messages [] aead c ps) ≡ frames aead c ps
  flatten-messages c [] = refl
  flatten-messages c (p ∷ ps) =
      let c' = increment (increment c) in
      ap (◌++◌ (chunk_message [] aead c p)) (flatten-messages c' ps)
      ∙ chunk_message-frames c p (frames aead c' ps)

  -- What the writer sends is what the reader takes for the same chunks, until the nonces run out.
  flatten-messages-stream :
      (ps : List Bytes)
      → 2 * length ps < 256 ^ aead.nonce_size
      → flatten (messages salt aead (replicate aead.nonce_size 0) ps) ≡ stream salt aead ps
  flatten-messages-stream [] lt = refl
  flatten-messages-stream (p ∷ ps) lt =
      let c : Bytes = replicate aead.nonce_size 0 in
      let c' = increment (increment c) in
      ap flatten (messages-salted_once salt aead p ps lt)
      ∙ append_assoc salt (chunk_message [] aead c p) (flatten (messages [] aead c' ps))
      ∙ ap (λ x. salt ++ (chunk_message [] aead c p ++ x)) (flatten-messages c' ps)
      ∙ ap (◌++◌ salt) (chunk_message-frames c p (frames aead c' ps))

  module _ (w : Writer) where
    Sends-Carries :
        (wire : Wire w) (s' : Session w) (p : Bytes) (src : Source)
        → wire.sent ≡ []
        → Sends salt aead (new_session w salt aead wire) s' p
        → s'.pending ≡ []
        → 2 * length p < 256 ^ aead.nonce_size
        → Smooth src
        → unread src ≡ flatten s'.writer.sent
        → Carries salt aead p (record { cr = new_reader src; leftover = [] })
    unfolding new_session
    Sends-Carries wire s' p src fresh d empties lt smooth e =
        let c : Bytes = replicate aead.nonce_size 0 in
        let plain : flatten d.chunks ≡ p =
          sym (append-nil (flatten d.chunks))
          ∙ ap (◌++◌ (flatten d.chunks)) (sym empties)
          ∙ d.plaintext in
        let sent : s'.writer.sent ≡ messages salt aead c d.chunks =
          d.sent_messages ∙ ap (λ l. l ++ messages salt aead c d.chunks) fresh in
        record {
          chunks = d.chunks;
          sizes = d.sizes;
          upcoming = inl (record {
            unopened = refl;
            bytes_left =
                e
                ∙ ap flatten sent
                ∙ flatten-messages-stream d.chunks
                    (omega (arith, ap length plain, length-chunks d.chunks d.sizes));
            smooth = smooth;
          });
          plaintext = plain;
        }

    -- What ReadFrom has done by its result.
    DoneBy : Session w → Source → Option (Session w × ℕ × Fault × Source) → Type 0
    DoneBy s src none = Unit {0}
    DoneBy s src (some (s', n, err, src')) = Reads w salt aead s src s' n src' (err ≡ none)

    fresh-Reads :
        (wire : Wire w) (s' : Session w) (n : ℕ) (src src' : Source)
        → NoEof w
        → read_from w salt aead false (new_session w salt aead wire) src ≡ some (s', n, none, src')
        → Reads w salt aead
            (new_session w salt aead wire)
            src
            s'
            n
            src'
            (let no_fault : Fault = none in no_fault ≡ no_fault)
    unfolding DoneBy new_session
    fresh-Reads wire s' n src src' honest run =
        let s : Session w = new_session w salt aead wire in
        let (s1, n1, err1, src1, eq, h) =
          read_from-Reads w salt aead honest false s src (omega arith, λ e. refl)
            (λ e. absurd (cc e)) in
        subst (DoneBy s src) run (subst (DoneBy s src) (sym eq) h)

    -- When ReadFrom of a new writer takes `n` bytes without an error, and those are fewer than half the
    -- nonces, a new reader with the same key, on the bytes that the writer sent cut up in any way,
    -- passes them on: WriteTo returns, and either it has handed over just these bytes and returns no error,
    -- or the last call of Write on its destination returned the error that WriteTo returns, the
    -- destination took a prefix of the bytes, and the rest is still to come; it counts what was taken.
    pub write_to-read_from :
        (out_writer : Writer) (new_aead : Bytes → Fallible Aead) (salt_size n : ℕ) (wire : Wire w)
        (s' : Session w) (src src' net : Source) (out : Wire out_writer)
        → NoEof w
        → SessionKey new_aead salt_size salt aead
        → wire.sent ≡ []
        → read_from w salt aead false (new_session w salt aead wire) src ≡ some (s', n, none, src')
        → 2 * n < 256 ^ aead.nonce_size
        → Smooth net
        → unread net ≡ flatten s'.writer.sent
        → (taken : Bytes) × (r : Written salt aead out_writer) × (taken ++ unread src' ≡ unread src)
          × (length taken ≡ n)
          × (write_to new_aead salt_size out_writer
                (suc n)
                (record { cr = new_reader net; leftover = [] })
                out
                0
              ≡ some r)
          × Drains salt aead out_writer taken out 0 r
    write_to-read_from out_writer new_aead salt_size n wire s' src src' net out honest key fresh run
          lt smooth e =
        let h = fresh-Reads wire s' n src src' honest run in
        let carries =
          Sends-Carries wire s' h.taken net fresh (h.complete refl) h.empties
            (omega (arith, h.count)) smooth e in
        let (r, eq, d) =
          write_to-Drains salt aead out_writer new_aead salt_size (suc n) h.taken
            (record { cr = new_reader net; leftover = [] }) out 0 key carries
            (omega (arith, h.count)) in
        (h.taken, r, h.taken-unread, h.count, eq, d)
