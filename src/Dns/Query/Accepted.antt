-- ===== src/Dns/Query/Accepted.antt =====
-- A resolver returns only a response to its question, and returns it although others come before it.
use bfx_outline_sdk.Prelude.{
  ap₂, ◌∙◌, subst, All, Option-cases, [], none, some, inl, inr, ◌∷◌, ◌≡◌, ◌++◌, refl,
}
use bfx_outline_sdk.Io.{Bytes, GoError, Fault, Fallible, >>=-eq-inr, wrap, Writer, Wire, send}
use bfx_outline_sdk.Io.Source.{Source, read_full}
use bfx_outline_sdk.Dns.Check.{
  Question, Message, Dnsmessage, append_request, check_response, Answers, check_response_iff,
}
use bfx_outline_sdk.Dns.Query.{
  err_bad_request, round, send_request, err_bad_response, uint16, checked, stream_request,
  err_receive, List, ℕ, nest, join, passed, accept, read_fault, datagram_loop, query_datagram,
  stream_response, query_stream, udp_query, stream_query,
}

pub nest-inr {ℓ} :
    {A : Type ℓ} {a : A} (is : GoError) (x : Fallible A) → nest is x ≡ inr a → x ≡ inr a
nest-inr is (inl e) h = absurd (cc h)
nest-inr is (inr b) h = h

passed-Answers :
    (id : ℕ) (q : Question) (msg m : Message)
    → passed msg (check_response id q msg) ≡ inr m
    → Answers id q m
passed-Answers id q msg m h = elim (Option-cases (check_response id q msg)) [
  | inl e ↦ subst (Answers id q) (cc (rw e at h)) ((check_response_iff id q msg).0 e)
  | inr (d, e) ↦ absurd (cc (rw e at h))
]

module _ (dm : Dnsmessage) where
  accept-Answers :
      (id : ℕ) (q : Question) (p : Bytes) (m : Message) → accept dm id q p ≡ inr m → Answers id q m
  unfolding accept
  accept-Answers id q p m h =
      let (msg, e, h') = >>=-eq-inr (dm.unpack p) _ h in passed-Answers id q msg m h'

  round-Answers :
      (id : ℕ) (q : Question) (err e : Fault) (packet : Fallible Message)
      (again : GoError → Fallible Message) (m : Message)
      → (packet ≡ inr m → Answers id q m)
      → ((d : GoError) → again d ≡ inr m → Answers id q m)
      → round dm err e packet again ≡ inr m
      → Answers id q m
  round-Answers id q err (some e) packet again m now later h = absurd (cc h)
  round-Answers id q err none (inr n) again m now later h = now h
  round-Answers id q err none (inl d) again m now later h = later (join err d) h

  datagram_loop-Answers :
      (id : ℕ) (q : Question) (last : GoError) (answers : List (Bytes × Fault)) (err : Fault)
      (m : Message)
      → datagram_loop dm id q last answers err ≡ inr m
      → Answers id q m
  unfolding datagram_loop
  datagram_loop-Answers id q last [] err m h = absurd (cc h)
  datagram_loop-Answers id q last ((p, e) ∷ r) err m h =
      round-Answers id q err (read_fault dm p e) (accept dm id q p)
        (λ d. datagram_loop dm id q last r (some d)) m (accept-Answers id q p m)
        (λ d k. datagram_loop-Answers id q last r (some d) m k) h

  -- A packet is no reason to stop, and not the answer.
  abbrev pub Ignored : ℕ → Question → Bytes × Fault → Type 0
  Ignored id q (p, e) =
      (read_fault dm p e ≡ none) × ((err : GoError) × (accept dm id q p ≡ inl err))

  whole : (p : Bytes) → read_fault dm p none ≡ none
  whole [] = refl
  whole (b ∷ p) = refl

  -- The first response that is accepted is returned, whatever was received before it.
  pub datagram_loop-first :
      (id : ℕ) (q : Question) (last : GoError) (before after : List (Bytes × Fault)) (p : Bytes)
      (err : Fault) (m : Message)
      → All (Ignored id q) before
      → accept dm id q p ≡ inr m
      → datagram_loop dm id q last (before ++ (p, none) ∷ after) err ≡ inr m
  unfolding datagram_loop
  datagram_loop-first id q last [] after p err m h ok =
      ap₂ (λ e a. round dm err e a (λ d. datagram_loop dm id q last after (some d))) (whole p) ok
  datagram_loop-first id q last ((p', e) ∷ before) after p err m ((fine, (d, bad)), h) ok =
      let later = before ++ (p, none) ∷ after in
      ap₂ (λ e' a. round dm err e' a (λ d'. datagram_loop dm id q last later (some d'))) fine bad
      ∙ datagram_loop-first id q last before after p (some (join err d)) m h ok

  stream_response-Answers :
      (id : ℕ) (q : Question) (src : Source) (m : Message)
      → stream_response dm id q src ≡ inr m
      → Answers id q m
  unfolding stream_response
  stream_response-Answers id q src m h =
      let (l, _, h1) =
        >>=-eq-inr
          (nest err_receive (wrap "read message length failed" (checked (read_full 2 src)))) _ h in
      let (b, _, h2) =
        >>=-eq-inr
          (nest err_receive (wrap "read message failed" (checked (read_full (uint16 l.0) l.1)))) _
          h1 in
      let (msg, _, h3) =
        >>=-eq-inr (nest err_bad_response (wrap "response failed to unpack" (dm.unpack b.0))) _
          h2 in
      passed-Answers id q msg m
        (nest-inr err_bad_response (passed msg (check_response id q msg)) h3)

  send_request-reply :
      (w : Writer) (conn : Wire w) (buf : Fallible Bytes) (reply : Fallible Message) (m : Message)
      → (send_request dm w conn buf reply).1 ≡ inr m
      → reply ≡ inr m
  send_request-reply w conn (inl e) reply m h = absurd (cc h)
  send_request-reply w conn (inr buf) reply m h = elim (Option-cases (send w conn buf).2) [
    | inl f ↦ rw f at h
    | inr (e, f) ↦ absurd (cc (rw f at h))
  ]

  -- The resolver over packets returns only a response to its question, under the id that it sent.
  pub udp_query-Answers :
      (w : Writer) (dial : Fallible (Wire w × List (Bytes × Fault))) (id : ℕ) (q : Question)
      (last : GoError) (m : Message)
      → (udp_query dm w dial id q last).result ≡ inr m
      → Answers id q m
  unfolding udp_query query_datagram
  udp_query-Answers w (inl e) id q last m h = absurd (cc h)
  udp_query-Answers w (inr (conn, answers)) id q last m h =
      datagram_loop-Answers id q last answers none m (
        send_request-reply w conn
          (nest err_bad_request (wrap "append request failed" (append_request dm id q [])))
          (datagram_loop dm id q last answers none) m h)

  -- So does the resolver over a stream.
  pub stream_query-Answers :
      (w : Writer) (dial : Fallible (Wire w × Source)) (id : ℕ) (q : Question) (m : Message)
      → (stream_query dm w dial id q).result ≡ inr m
      → Answers id q m
  unfolding stream_query query_stream
  stream_query-Answers w (inl e) id q m h = absurd (cc h)
  stream_query-Answers w (inr (conn, src)) id q m h =
      stream_response-Answers id q src m
        (send_request-reply w conn (stream_request dm id q) (stream_response dm id q src) m h)
