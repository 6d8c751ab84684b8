-- ===== src/Socks5/Request/Reply.antt =====
-- What the client makes of the answers of a proxy that keeps to RFC 1928 and RFC 1929.
use bfx_outline_sdk.Prelude.{
  take_all, ap, arith, ◌==◌, ◌∙◌, Option, ℕ, [], none, some, inl, inr, ◌∷◌, ◌≡◌, ◌++◌, ◌⊎◌, true,
  false, refl, ◌≢◌,
}
use bfx_outline_sdk.Io.{Bytes, Fault, Fallible, reply_code, wrapped, Writer, Wire, send}
use bfx_outline_sdk.Io.Source.{Source, unread}
use bfx_outline_sdk.Io.Source.Full.{Smooth, read_full-Gets}
use bfx_outline_sdk.Socks5.Address.{Address, Net, append_socks5_address}
use bfx_outline_sdk.Socks5.Address.RoundTrip.{target, read_addr-append_socks5_address}
use bfx_outline_sdk.Socks5.Request.{
  Credentials, read_method, read_auth, read_reply, read_response, request_bytes, request,
  connect_and_request, Attempt,
}

-- The methods that the client goes on with.
pub data Method : Type 0 where
  no_auth user_pass : Method

abbrev pub method_code : Method → ℕ
method_code no_auth = 0
method_code user_pass = 2

-- What the proxy answers once it accepts the client.
abbrev pub accepted : Method → Bytes
accepted no_auth = []
accepted user_pass = 1 ∷ 0 ∷ []

-- The answers up to the code of the reply, with any reserved byte, and what follows.
abbrev pub answers : Method → ℕ → ℕ → Bytes → Bytes
answers m code rsv tail = 5 ∷ method_code m ∷ (accepted m ++ 5 ∷ code ∷ rsv ∷ tail)

read_auth-accepted :
    (m : Method) (rest : Bytes) (src : Source)
    → Smooth src
    → unread src ≡ accepted m ++ rest
    → (s : Source) × (read_auth (method_code m) src ≡ inr s) × (unread s ≡ rest) × Smooth s
unfolding read_auth
read_auth-accepted no_auth rest src h e = (src, refl, e, h)
read_auth-accepted user_pass rest src h e =
    let (s, r, left, smooth) = read_full-Gets (1 ∷ 0 ∷ []) rest src h e in (s, rw r, left, smooth)

-- Up to the reply the response is read.
response-prefix :
    (m : Method) (code rsv : ℕ) (tail : Bytes) (src : Source)
    → Smooth src
    → unread src ≡ answers m code rsv tail
    → (s : Source) × (read_response src ≡ read_reply s)
      × (unread s ≡ 5 ∷ code ∷ rsv ∷ tail)
      × Smooth s
unfolding read_response read_method
response-prefix m code rsv tail src h e =
    let (s1, r1, left1, smooth1) =
      read_full-Gets (5 ∷ method_code m ∷ []) (accepted m ++ 5 ∷ code ∷ rsv ∷ tail) src h e in
    let (s2, r2, left2, smooth2) = read_auth-accepted m (5 ∷ code ∷ rsv ∷ tail) s1 smooth1 left1 in
    (s2, rw (r1, r2), left2, smooth2)

-- A code other than zero is the error that the caller gets.
pub read_response-refused :
    (m : Method) (code rsv : ℕ) (tail : Bytes) (src : Source)
    → code ≢ 0
    → Smooth src
    → unread src ≡ answers m code rsv tail
    → read_response src ≡ inl (reply_code code)
unfolding read_reply
read_response-refused m code rsv tail src ne h e =
    let (s, r, left, smooth) = response-prefix m code rsv tail src h e in
    let (s', r', left', smooth') = read_full-Gets (5 ∷ code ∷ rsv ∷ []) tail s smooth left in
    let refused : (code == 0) ≡ false = ground arith in r ∙ rw (r', refused)

-- The address that the proxy bound is read.
pub read_response-bound :
    (net : Net) (m : Method) (rsv : ℕ) (address e rest : Bytes) (src : Source)
    → append_socks5_address net [] address ≡ inr e
    → Smooth src
    → unread src ≡ answers m 0 rsv (e ++ rest)
    → (host port_str : Bytes) × (port : ℕ) × (src' : Source) × (net.split_host_port address
        ≡ inr (host, port_str))
      × (net.parse_uint16 port_str ≡ inr port)
      × (read_response src ≡ inr (target host (net.parse_ip host) port, src'))
      × (unread src' ≡ rest)
unfolding read_reply
read_response-bound net m rsv address enc rest src ok h e =
    let (s, r, left, smooth) = response-prefix m 0 rsv (enc ++ rest) src h e in
    let (s', r', left', smooth') = read_full-Gets (5 ∷ 0 ∷ rsv ∷ []) (enc ++ rest) s smooth left in
    let (host, port_str, port, src', split, parse, got, after) =
      read_addr-append_socks5_address net [] address enc rest s' ok smooth' left' in
    (host, port_str, port, src', split, parse, r ∙ rw (r', got), after)

module _ (w : Writer) (net : Net) where
  -- No connection is left open with an error, and the one that is returned is open.
  abbrev pub Releases : {A : Type 0} → Attempt w net A → Type 0
  Releases a = elim a.result [
    | inl e ↦ (a.conn ≡ none) ⊎ (a.closed ≡ true)
    | inr x ↦ ((c : Wire w) × (a.conn ≡ some c)) × (a.closed ≡ false)
  ]

  -- The last step of connectAndRequest.
  abbrev outcome : Wire w × Fallible (Address × Source) → Attempt w net (Address × Source)
  outcome (conn, r) = elim r [
    | inl e ↦ record { conn = some conn; closed = true; result = inl e }
    | inr a ↦ record { conn = some conn; closed = false; result = inr a }
  ]

  outcome-Releases : (x : Wire w × Fallible (Address × Source)) → Releases (outcome x)
  outcome-Releases (conn, inl e) = inr refl
  outcome-Releases (conn, inr a) = ((conn, refl), refl)

  request-bound :
      (cred : Option Credentials) (conn : Wire w) (src : Source) (cmd : ℕ) (dst b : Bytes)
      {a : Address × Source}
      → request_bytes net cred cmd dst ≡ inr b
      → (send w conn b).2 ≡ none
      → read_response src ≡ inr a
      → request w net cred conn src cmd dst ≡ ((send w conn b).0, inr a)
  unfolding request
  request-bound cred conn src cmd dst b hb hw got =
      let reply : Fault → Fallible (Address × Source) = λ err. elim err [
        | some e ↦ inl (wrapped "failed to write combined SOCKS5 request" e)
        | none ↦ read_response src
      ] in
      let whole : Fallible Bytes → Wire w × Fallible (Address × Source) = λ x. elim x [
        | inl e ↦ (conn, inl e)
        | inr b' ↦ ((send w conn b').0, reply (send w conn b').2)
      ] in
      ap whole hb ∙ ap (λ r. ((send w conn b).0, r)) (ap reply hw ∙ got)

  sent_whole :
      (conn : Wire w) (b : Bytes)
      → (send w conn b).2 ≡ none
      → (send w conn b).0.sent ≡ conn.sent ++ b ∷ []
  unfolding send
  sent_whole conn b hw =
      ap (λ t. conn.sent ++ t ∷ []) (take_all _ b (omega (arith, w.write_full conn.state b hw)))

  pub connect_and_request-Releases :
      (cred : Option Credentials) (dial : Fallible (Wire w × Source)) (cmd : ℕ) (dst : Bytes)
      → Releases (connect_and_request w net cred dial cmd dst)
  unfolding connect_and_request
  connect_and_request-Releases cred (inl e) cmd dst = inl refl
  connect_and_request-Releases cred (inr (conn, src)) cmd dst =
      outcome-Releases (request w net cred conn src cmd dst)

  -- Against a proxy that accepts, and a connection that takes the request, the request is sent in one
  -- piece and the bound address returned.
  pub connect_and_request-bound :
      (cred : Option Credentials) (conn : Wire w) (src : Source) (cmd : ℕ) (dst b : Bytes)
      (m : Method) (rsv : ℕ) (address e rest : Bytes)
      → request_bytes net cred cmd dst ≡ inr b
      → (send w conn b).2 ≡ none
      → append_socks5_address net [] address ≡ inr e
      → Smooth src
      → unread src ≡ answers m 0 rsv (e ++ rest)
      → (host port_str : Bytes) × (port : ℕ) × (src' : Source) × (conn' : Wire w)
        × (net.split_host_port address ≡ inr (host, port_str))
        × (net.parse_uint16 port_str ≡ inr port)
        × (connect_and_request w net cred (inr (conn, src)) cmd dst ≡ record {
          conn = some conn';
          closed = false;
          result = inr (target host (net.parse_ip host) port, src');
        })
        × (conn'.sent ≡ conn.sent ++ b ∷ [])
        × (unread src' ≡ rest)
  unfolding connect_and_request
  connect_and_request-bound cred conn src cmd dst b m rsv address e rest hb hw he h left =
      let (host, port_str, port, src', split, parse, got, after) =
        read_response-bound net m rsv address e rest src he h left in
      (
        host,
        port_str,
        port,
        src',
        (send w conn b).0,
        split,
        parse,
        ap outcome (request-bound cred conn src cmd dst b hb hw got),
        sent_whole conn b hw,
        after,
      )
