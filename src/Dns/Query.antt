-- ===== src/Dns/Query.antt =====
-- dns/resolver.go: queryDatagram, queryStream and the resolvers around them. Random message ids, the
-- connections and the HTTP client are arguments; a closed connection is noted in an Exchange.
pub mod Accepted
pub mod Frames
use bfx_outline_sdk.Prelude.{
  drop, ◌/◌, ◌^◌, ◌%◌, ◌-◌, leb, ◌==◌, Bool, length, Option, List, if◌then◌else◌, ℕ, [], none, some,
  inl, inr, ◌∷◌, ◌≡◌, ◌++◌, ◌⊎◌, true, false, zero, suc,
}
use bfx_outline_sdk.Io.{
  join, Bytes, GoError, Fault, Fallible, ◌>>=◌, ◌>>◌, guard, wrap, message, wrapped, nested, joined,
  eof, is_eof, Writer, Wire, send,
}
use bfx_outline_sdk.Io.Source.{Source, read_full}
use bfx_outline_sdk.Socks5.Address.{Net, checked, uint16}
use bfx_outline_sdk.Dns.Check.{
  Question, Message, Dnsmessage, append_request, check_response, max_udp_message_size,
}

abbrev pub err_bad_request : GoError
err_bad_request = message "request input is invalid"

abbrev pub err_dial : GoError
err_dial = message "dial DNS resolver failed"

abbrev pub err_send : GoError
err_send = message "send DNS message failed"

abbrev pub err_receive : GoError
err_receive = message "receive DNS message failed"

abbrev pub err_bad_response : GoError
err_bad_response = message "response message is invalid"

-- &nestedError{is, err} around the error of a step.
abbrev pub nest {ℓ} : {A : Type ℓ} → GoError → Fallible A → Fallible A
nest is (inl e) = inl (nested is e)
nest is (inr a) = inr a

-- nil for an error of Unpack or of the check.
abbrev pub passed : Message → Fault → Fallible Message
passed msg none = inr msg
passed msg (some e) = inl e

module _ (dm : Dnsmessage) where
  -- Unpack, and checkResponse.
  unfoldable pub accept : ℕ → Question → Bytes → Fallible Message
  accept id q p = dm.unpack p >>= λ (msg : Message). passed msg (check_response id q msg)

  -- "Handle bad io.Reader".
  abbrev pub read_fault : Bytes → Fault → Fault
  read_fault [] e = e
  read_fault (b ∷ p) none = none
  read_fault (b ∷ p) (some e) = if is_eof e then none else some e

  -- A round of the loop of queryDatagram, by the error of the read and what became of the packet;
  -- `again` is the next round.
  abbrev pub round :
      Fault → Fault → Fallible Message → (GoError → Fallible Message) → Fallible Message
  round return_err (some e) packet again =
      inl (nested err_receive (join return_err (wrapped "read message failed" e)))
  round return_err none (inr msg) again = inr msg
  round return_err none (inl err) again = again (join return_err err)

  -- The loop over the answers of Read, each cut off at the capacity of the buffer. `last` is the error
  -- that ends the reads after them: a deadline, or a connection that is closed.
  unfoldable pub datagram_loop :
      ℕ → Question → GoError → List (Bytes × Fault) → Fault → Fallible Message
  datagram_loop id q last [] return_err = round return_err (some last) (inl last) inl
  datagram_loop id q last ((p, e) ∷ r) return_err =
      round return_err (read_fault p e) (accept id q p)
        (λ err. datagram_loop id q last r (some err))

  -- The request is sent, unless it could not be made, and then the reply is read.
  abbrev pub sent_or : Fault → Fallible Message → Fallible Message
  sent_or none reply = reply
  sent_or (some e) reply = inl (nested err_send e)

  abbrev pub send_request :
      (w : Writer) → Wire w → Fallible Bytes → Fallible Message → Wire w × Fallible Message
  send_request w conn (inl e) reply = (conn, inl e)
  send_request w conn (inr buf) reply =
      let (conn', n, err) = send w conn buf in (conn', sent_or err reply)

  -- `id` is uint16(rand.Uint32()).
  unfoldable pub query_datagram :
      (w : Writer)
      → Wire w
      → ℕ
      → Question
      → GoError
      → List (Bytes × Fault)
      → Wire w × Fallible Message
  query_datagram w conn id q last answers =
      send_request w conn
        (nest err_bad_request (wrap "append request failed" (append_request dm id q [])))
        (datagram_loop id q last answers none)

  -- The message with its length in front: two bytes are left free for it.
  unfoldable pub stream_request : ℕ → Question → Fallible Bytes
  stream_request id q = nest err_bad_request (
      wrap "append request failed" (append_request dm id q (0 ∷ 0 ∷ [])) >>= λ (buf : Bytes).
      guard (leb (length buf) 65535) (message "message too large")
      >> inr (((length buf - 2) % 2 ^ 16 / 256) ∷ ((length buf - 2) % 256) ∷ drop 2 buf))

  -- binary.Read of a uint16 reads both bytes with ReadFull.
  unfoldable pub stream_response : ℕ → Question → Source → Fallible Message
  stream_response id q src =
      nest err_receive (wrap "read message length failed" (checked (read_full 2 src)))
      >>= λ (l : Bytes × Source).
          nest err_receive (wrap "read message failed" (checked (read_full (uint16 l.0) l.1)))
          >>= λ (m : Bytes × Source).
              nest err_bad_response (wrap "response failed to unpack" (dm.unpack m.0))
              >>= λ (msg : Message). nest err_bad_response (passed msg (check_response id q msg))

  unfoldable pub query_stream :
      (w : Writer) → Wire w → ℕ → Question → Source → Wire w × Fallible Message
  query_stream w conn id q src =
      send_request w conn (stream_request id q) (stream_response id q src)

  -- A query over a connection of its own: the connection, if one was opened, whether it is closed, and
  -- the result.
  pub record Exchange (w : Writer) : Type 0 where
    pub conn : Option (Wire w)
    pub closed : Bool
    pub result : Fallible Message

  -- The resolver of NewUDPResolver; `dial` is what DialPacket answers.
  unfoldable pub udp_query :
      (w : Writer) → Fallible (Wire w × List (Bytes × Fault)) → ℕ → Question → GoError → Exchange w
  udp_query w (inl e) id q last = record {
    conn = none;
    closed = false;
    result = inl (nested err_dial e);
  }
  udp_query w (inr (conn, answers)) id q last =
      let (conn', r) = query_datagram w conn id q last answers in
      record { conn = some conn'; closed = true; result = r }

  -- Query of streamResolver; `dial` is what NewConn answers.
  unfoldable pub stream_query :
      (w : Writer) → Fallible (Wire w × Source) → ℕ → Question → Exchange w
  stream_query w (inl e) id q = record {
    conn = none;
    closed = false;
    result = inl (nested err_dial e);
  }
  stream_query w (inr (conn, src)) id q =
      let (conn', r) = query_stream w conn id q src in
      record { conn = some conn'; closed = true; result = r }

  -- The resolver of NewHTTPSResolver: `new_request` is the error of NewRequestWithContext, `http_do`
  -- answers the body of the request with a status and the body of the response.
  unfoldable pub https_query :
      Fallible (Unit {0}) → (Bytes → Fallible (ℕ × Fallible Bytes)) → Question → Fallible Message
  https_query new_request http_do q =
      nest err_bad_request (wrap "append request failed" (append_request dm 0 q []))
      >>= λ (buf : Bytes).
          nest err_bad_request (wrap "create HTTP request failed" new_request)
          >> nest err_receive (wrap "failed to get HTTP response" (http_do buf))
          >>= λ (resp : ℕ × Fallible Bytes).
              nest err_receive (guard (resp.0 == 200) (message "got HTTP status"))
              >> nest err_receive (wrap "failed to read response" resp.1)
              >>= λ (response : Bytes).
                  nest err_bad_response (wrap "failed to unpack DNS response" (dm.unpack response))
                  >>= λ (msg : Message). nest err_bad_response (passed msg (check_response 0 q msg))

unfoldable pub ensure_port : Net → Bytes → Bytes → Bytes
ensure_port net address default_port = elim (net.split_host_port address) [
  | inl e ↦ net.join_host_port address default_port
  | inr hp ↦ if length hp.1 == 0 then net.join_host_port hp.0 default_port else address
]
