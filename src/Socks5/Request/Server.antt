-- ===== src/Socks5/Request/Server.antt =====
-- What a proxy reads of a request, after RFC 1928 and RFC 1929.
use bfx_outline_sdk.Prelude.{
  append_assoc, ap, arith, ◌∙◌, ◌==◌, if◌then◌else◌, ◌%◌, ℕ, ◌≤◌, length, Option, ◌↔◌, [], none,
  some, inr, ◌∷◌, ◌≡◌, ◌++◌, inl,
}
use bfx_outline_sdk.Io.{wrap-inr, Bytes, Fallible, ◌>>=◌, ◌>>◌, guard, message}
use bfx_outline_sdk.Io.Source.{Source, read_full, unread}
use bfx_outline_sdk.Io.Source.Full.{Smooth, read_full-Gets}
use bfx_outline_sdk.Socks5.Address.{Address, Net, read_addr, checked}
use bfx_outline_sdk.Socks5.Address.RoundTrip.{
  target, encoded, read_addr-target, append_socks5_address-encoded,
}
use bfx_outline_sdk.Socks5.Request.{
  Credentials, byte_at, method_request, request_bytes, set_credentials,
}

-- The server's side: a field with its length in front.
abbrev pub read_field : Source → Fallible (Bytes × Source)
read_field src =
    checked (read_full 1 src) >>= λ (l : Bytes × Source). checked (read_full (byte_at l.0 0) l.1)

-- User name and password after RFC 1929, of version 1.
abbrev pub read_credentials : Source → Fallible (Option Credentials × Source)
read_credentials src = checked (read_full 1 src) >>= λ (v : Bytes × Source).
    guard (byte_at v.0 0 == 1) (message "bad version of the authentication")
    >> (read_field v.1 >>= λ (u : Bytes × Source). read_field u.1 >>= λ (p : Bytes × Source).
        inr (some (record { username = u.0; password = p.0 }), p.1))

-- What follows for the method that is offered.
abbrev pub serve_offer : ℕ → Source → Fallible (Option Credentials × Source)
serve_offer offered src =
    if offered == 0
    then inr (none, src)
    else if offered == 2
    then read_credentials src
    else inl (message "no acceptable method")

-- The greeting is of version 5 with one method; for method 2 user name and password follow at once.
abbrev pub serve_method : Source → Fallible (Option Credentials × Source)
serve_method src = checked (read_full 3 src) >>= λ (h : Bytes × Source).
    guard (byte_at h.0 0 == 5) (message "bad version")
    >> guard (byte_at h.0 1 == 1) (message "more than one method")
    >> serve_offer (byte_at h.0 2) h.1

-- The credentials, the command and the address; the version is 5 and the reserved byte 0.
abbrev pub serve : Source → Fallible (Option Credentials × ℕ × Address × Source)
serve src = serve_method src >>= λ (m : Option Credentials × Source).
    checked (read_full 3 m.1) >>= λ (h : Bytes × Source).
    guard (byte_at h.0 0 == 5) (message "bad version")
    >> guard (byte_at h.0 2 == 0) (message "bad reserved byte")
    >> (read_addr h.1 >>= λ (a : Address × Source). inr (m.0, byte_at h.0 1, a.0, a.1))

-- SetCredentials takes what has 1 to 255 bytes.
abbrev pub FieldSize : Bytes → Type 0
FieldSize s = (1 ≤ length s) × (length s ≤ 255)

pub set_credentials_iff :
    (u p : Bytes)
    → (set_credentials u p ≡ inr (record { username = u; password = p }))
      ↔ (FieldSize u × FieldSize p)
unfolding set_credentials
set_credentials_iff u p = (λ h. ground arith, λ h. ground arith)

-- No credentials, or such as SetCredentials takes.
abbrev pub Settable : Option Credentials → Type 0
Settable none = Unit {0}
Settable (some c) = FieldSize c.username × FieldSize c.password

read_field_lem :
    (x rest : Bytes) (src : Source)
    → FieldSize x
    → Smooth src
    → unread src ≡ (length x % 256) ∷ (x ++ rest)
    → (s : Source) × (read_field src ≡ inr (x, s)) × (unread s ≡ rest) × Smooth s
read_field_lem x rest src size h e =
    let same : length x % 256 ≡ length x = omega arith in
    let (s1, r1, left1, smooth1) =
      read_full-Gets (length x ∷ []) (x ++ rest) src h (e ∙ ap (λ n. n ∷ (x ++ rest)) same) in
    let (s, r, left, smooth) = read_full-Gets x rest s1 smooth1 left1 in
    (s, rw (r1, r), left, smooth)

serve_method_lem :
    (cred : Option Credentials) (rest : Bytes) (src : Source)
    → Settable cred
    → Smooth src
    → unread src ≡ method_request cred ++ rest
    → (s : Source) × (serve_method src ≡ inr (cred, s)) × (unread s ≡ rest) × Smooth s
unfolding method_request
serve_method_lem none rest src ok h e =
    let (s, r, left, smooth) = read_full-Gets (5 ∷ 1 ∷ 0 ∷ []) rest src h e in
    (s, rw r, left, smooth)
serve_method_lem (some c) rest src (hu, hp) h e =
    let tail = (length c.password % 256) ∷ (c.password ++ rest) in
    let user = (length c.username % 256) ∷ (c.username ++ tail) in
    let (s1, r1, left1, smooth1) = read_full-Gets (5 ∷ 1 ∷ 2 ∷ []) (1 ∷ user) src h (
      e
      ∙ ap (λ t. 5 ∷ 1 ∷ 2 ∷ 1 ∷ (length c.username % 256) ∷ t)
          (append_assoc c.username ((length c.password % 256) ∷ c.password) rest)) in
    let (s2, r2, left2, smooth2) = read_full-Gets (1 ∷ []) user s1 smooth1 left1 in
    let (s3, r3, left3, smooth3) = read_field_lem c.username tail s2 hu smooth2 left2 in
    let (s4, r4, left4, smooth4) = read_field_lem c.password rest s3 hp smooth3 left3 in
    (s4, rw (r1, r2, r3, r4), left4, smooth4)

-- For credentials that SetCredentials takes, or none, the request that the client makes is one that a proxy
-- takes which checks all that RFC 1928 and RFC 1929 fix: the version 5 of the greeting and of the request,
-- one method, the version 1 of the authentication, and the reserved byte. However its reader cuts the
-- bytes up, it reads just the credentials, the command and the destination that the request was made of.
pub serve-request_bytes :
    (net : Net) (cred : Option Credentials) (cmd : ℕ) (dst b rest : Bytes) (src : Source)
    → Settable cred
    → request_bytes net cred cmd dst ≡ inr b
    → Smooth src
    → unread src ≡ b ++ rest
    → (host port_str : Bytes) × (port : ℕ) × (src' : Source) × (net.split_host_port dst
        ≡ inr (host, port_str))
      × (net.parse_uint16 port_str ≡ inr port)
      × (serve src ≡ inr (cred, cmd, target host (net.parse_ip host) port, src'))
      × (unread src' ≡ rest)
unfolding request_bytes
serve-request_bytes net cred cmd dst b rest src ok hb h e =
    let (host, port_str, port, split, parse, enc, eq) =
      append_socks5_address-encoded net (method_request cred ++ 5 ∷ cmd ∷ 0 ∷ []) dst b
        (wrap-inr _ _ hb) in
    let bytes = encoded host (net.parse_ip host) port in
    let shape : unread src ≡ method_request cred ++ (5 ∷ cmd ∷ 0 ∷ (bytes ++ rest)) =
      e
      ∙ ap (λ x. x ++ rest) (eq ∙ append_assoc (method_request cred) (5 ∷ cmd ∷ 0 ∷ []) bytes)
      ∙ append_assoc (method_request cred) (5 ∷ cmd ∷ 0 ∷ bytes) rest in
    let (s1, r1, left1, smooth1) =
      serve_method_lem cred (5 ∷ cmd ∷ 0 ∷ (bytes ++ rest)) src ok h shape in
    let (s2, r2, left2, smooth2) =
      read_full-Gets (5 ∷ cmd ∷ 0 ∷ []) (bytes ++ rest) s1 smooth1 left1 in
    let (s3, r3, left3, smooth3) =
      read_addr-target host rest (net.parse_ip host) port s2 enc
        (net.parse_uint16-lt port_str port parse) smooth2 left2 in
    (host, port_str, port, s3, split, parse, rw (r1, r2, r3), left3)
