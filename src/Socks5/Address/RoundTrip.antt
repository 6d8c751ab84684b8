-- ===== src/Socks5/Address/RoundTrip.antt =====
-- readAddr reads what appendSOCKS5Address wrote.
use bfx_outline_sdk.Prelude.{
  drop, drop-length-append, append_assoc, ◌/◌, ◌∙◌, ◌^◌, ◌%◌, sym, ap, ◌<◌, arith, leb, ◌≤◌,
  Bool-cases, length, ℕ, Option, [], none, some, inl, inr, ◌∷◌, ◌≡◌, ◌++◌, refl,
}
use bfx_outline_sdk.Io.{>>=-eq-inr, Bytes}
use bfx_outline_sdk.Io.Source.{Source, read_full, unread}
use bfx_outline_sdk.Io.Source.Full.{Smooth, read_full-Gets, read_byte-Gets}
use bfx_outline_sdk.Socks5.Address.{
  Address, Net, ParsedIp, ip4, ip6, not_ip, append_host, append_uint16, append_socks5_address,
  read_host, read_addr, uint16,
}

-- The address that a host and a port stand for.
abbrev pub target : Bytes → Option ParsedIp → ℕ → Address
target host (some (ip4 b)) port = record { name = []; ip = some b; port = port }
target host (some (ip6 b)) port = record { name = []; ip = some b; port = port }
target host (some not_ip) port = record { name = []; ip = none; port = port }
target host none port = record { name = host; ip = none; port = port }

-- Its type and its bytes in the protocol.
abbrev pub host_type : Option ParsedIp → ℕ
host_type (some (ip4 b)) = 1
host_type (some (ip6 b)) = 4
host_type (some not_ip) = 0
host_type none = 3

abbrev pub host_bytes : Bytes → Option ParsedIp → Bytes
host_bytes host (some (ip4 b)) = b
host_bytes host (some (ip6 b)) = b
host_bytes host (some not_ip) = []
host_bytes host none = length host ∷ host

abbrev pub Encodable : Bytes → Option ParsedIp → Type 0
Encodable host (some (ip4 b)) = length b ≡ 4
Encodable host (some (ip6 b)) = length b ≡ 16
Encodable host (some not_ip) = ⊥
Encodable host none = length host ≤ 255

append_host-Encodable :
    (net : Net) (b host b' : Bytes) (p : Option ParsedIp)
    → net.parse_ip host ≡ p
    → append_host b host p ≡ inr b'
    → Encodable host p × (b' ≡ b ++ host_type p ∷ host_bytes host p)
unfolding append_host
append_host-Encodable net b host b' (some (ip4 x)) e h = (net.parse_ip4 host x e, cc h)
append_host-Encodable net b host b' (some (ip6 x)) e h = (net.parse_ip6 host x e, cc h)
append_host-Encodable net b host b' (some not_ip) e h = absurd (cc h)
append_host-Encodable net b host b' none e h = elim (Bool-cases (leb (length host) 255)) [
  | inl t ↦
      let le : length host ≤ 255 = ground arith in
      let same : length host % 256 ≡ length host = omega arith in
      let eq : b ++ 3 ∷ (length host % 256) ∷ host ≡ b' = cc (rw t at h) in
      (le, sym eq ∙ ap (λ n. b ++ 3 ∷ n ∷ host) same)
  | inr f ↦ absurd (cc (rw f at h))
]

-- The host, and no port yet.
read_host-target :
    (host rest : Bytes) (p : Option ParsedIp) (src : Source)
    → Encodable host p
    → Smooth src
    → unread src ≡ host_bytes host p ++ rest
    → (s : Source) × (read_host (host_type p) src ≡ inr (target host p 0, s))
      × (unread s ≡ rest)
      × Smooth s
unfolding read_host
read_host-target host rest (some (ip4 x)) src len h e =
    let (s, r, left, smooth) = read_full-Gets x rest src h e in
    (s, rw (ap (λ n. read_full n src) (sym len) ∙ r), left, smooth)
read_host-target host rest (some (ip6 x)) src len h e =
    let (s, r, left, smooth) = read_full-Gets x rest src h e in
    (s, rw (ap (λ n. read_full n src) (sym len) ∙ r), left, smooth)
read_host-target host rest (some not_ip) src len h e = absurd len
read_host-target host rest none src len h e =
    let (s1, r1, left1, smooth1) = read_byte-Gets (length host) (host ++ rest) src h e in
    let (s, r, left, smooth) = read_full-Gets host rest s1 smooth1 left1 in
    (s, rw (r1, r), left, smooth)

-- The bytes that follow the type: host and port.
abbrev pub encoded : Bytes → Option ParsedIp → ℕ → Bytes
encoded host p port = host_type p ∷ append_uint16 (host_bytes host p) port

target-port :
    (host : Bytes) (p : Option ParsedIp) (port port' : ℕ)
    → record (target host p port) { port = port' } ≡ target host p port'
target-port host (some (ip4 x)) port port' = refl
target-port host (some (ip6 x)) port port' = refl
target-port host (some not_ip) port port' = refl
target-port host none port port' = refl

-- Reading an encoded address, however the reader cuts it up.
pub read_addr-target :
    (host rest : Bytes) (p : Option ParsedIp) (port : ℕ) (src : Source)
    → Encodable host p
    → port < 2 ^ 16
    → Smooth src
    → unread src ≡ encoded host p port ++ rest
    → (s : Source) × (read_addr src ≡ inr (target host p port, s)) × (unread s ≡ rest) × Smooth s
unfolding read_addr
read_addr-target host rest p port src enc lt h e =
    let port_bytes = (port % 2 ^ 16 / 256) ∷ (port % 256) ∷ [] in
    let (s1, r1, left1, smooth1) =
      read_byte-Gets (host_type p) (append_uint16 (host_bytes host p) port ++ rest) src h e in
    let (s2, r2, left2, smooth2) =
      read_host-target host (port_bytes ++ rest) p s1 enc smooth1
        (left1 ∙ append_assoc (host_bytes host p) port_bytes rest) in
    let (s3, r3, left3, smooth3) = read_full-Gets port_bytes rest s2 smooth2 left2 in
    let value : uint16 port_bytes ≡ port = omega arith in
    (
      s3,
      rw (r1, r2, r3)
          (ap (λ a. inr (a, s3))
            (target-port host p 0 (uint16 port_bytes) ∙ ap (target host p) value)),
      left3,
      smooth3,
    )

-- What appendSOCKS5Address appends without an error.
pub append_socks5_address-encoded :
    (net : Net) (b address out : Bytes)
    → append_socks5_address net b address ≡ inr out
    → (host port_str : Bytes) × (port : ℕ) × (net.split_host_port address ≡ inr (host, port_str))
      × (net.parse_uint16 port_str ≡ inr port)
      × Encodable host (net.parse_ip host)
      × (out ≡ b ++ encoded host (net.parse_ip host) port)
unfolding append_socks5_address
append_socks5_address-encoded net b address out h =
    let (hp, split, h1) = >>=-eq-inr (net.split_host_port address) _ h in
    let (port, parse, h2) = >>=-eq-inr (net.parse_uint16 hp.1) _ h1 in
    let (b', host_ok, h3) = >>=-eq-inr (append_host b hp.0 (net.parse_ip hp.0)) _ h2 in
    let (enc, eq) = append_host-Encodable net b hp.0 b' (net.parse_ip hp.0) refl host_ok in
    let port_bytes = (port % 2 ^ 16 / 256) ∷ (port % 256) ∷ [] in
    let host_part = host_type (net.parse_ip hp.0) ∷ host_bytes hp.0 (net.parse_ip hp.0) in
    let written : append_uint16 b' port ≡ out = cc h3 in
    (
      hp.0,
      hp.1,
      port,
      split,
      parse,
      enc,
      sym written ∙ ap (λ x. append_uint16 x port) eq ∙ append_assoc b host_part port_bytes,
    )

-- What appendSOCKS5Address appends without an error is read back, however the reader cuts it up.
pub read_addr-append_socks5_address :
    (net : Net) (b address e rest : Bytes) (src : Source)
    → append_socks5_address net b address ≡ inr (b ++ e)
    → Smooth src
    → unread src ≡ e ++ rest
    → (host port_str : Bytes) × (port : ℕ) × (src' : Source) × (net.split_host_port address
        ≡ inr (host, port_str))
      × (net.parse_uint16 port_str ≡ inr port)
      × (read_addr src ≡ inr (target host (net.parse_ip host) port, src'))
      × (unread src' ≡ rest)
read_addr-append_socks5_address net b address e rest src h smooth left =
    let (host, port_str, port, split, parse, enc, eq) =
      append_socks5_address-encoded net b address (b ++ e) h in
    let bytes = encoded host (net.parse_ip host) port in
    let same : e ≡ bytes =
      sym (drop-length-append b e) ∙ ap (drop (length b)) eq ∙ drop-length-append b bytes in
    let (src', r, left', _) =
      read_addr-target host rest (net.parse_ip host) port src enc
        (net.parse_uint16-lt port_str port parse) smooth (left ∙ ap (λ x. x ++ rest) same) in
    (host, port_str, port, src', split, parse, r, left')
