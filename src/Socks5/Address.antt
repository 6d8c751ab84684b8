-- ===== src/Socks5/Address.antt =====
-- transport/socks5/socks5.go: the addresses of the protocol. A Go string is its bytes. What packages
-- net and strconv do with addresses is a parameter.
pub mod RoundTrip
use bfx_outline_sdk.Prelude.{
  Bool, ◌/◌, length, ◌^◌, ◌+◌, ◌==◌, ◌%◌, leb, if◌then◌else◌, ◌<◌, ◌*◌, Option, ℕ, [], none, some,
  inl, inr, ◌∷◌, ◌≡◌, ◌++◌, ◌⊎◌,
}
use bfx_outline_sdk.Io.{Bytes, GoError, Fault, Fallible, ◌>>=◌, ◌>>◌, guard, message}
use bfx_outline_sdk.Io.Source.{Source, read, read_full}

abbrev pub addr_type_ipv4 : ℕ
addr_type_ipv4 = 1

abbrev pub addr_type_domain_name : ℕ
addr_type_domain_name = 3

abbrev pub addr_type_ipv6 : ℕ
addr_type_ipv6 = 4

-- A net.IP by what To4 and To16 answer: the bytes of the first that is not nil.
pub data ParsedIp : Type 0 where
  ip4 ip6 : Bytes → ParsedIp
  not_ip : ParsedIp

-- net.SplitHostPort; strconv.ParseUint with base 10 and 16 bits, which answers no more than fits; and
-- net.ParseIP, none for nil, whose To4 has 4 bytes and whose To16 has 16. The
-- others are net.JoinHostPort, strconv.Itoa, String, ParseAddr and IsUnspecified of a netip.Addr by its
-- bytes, and net.LookupPort.
pub record Net : Type 0 where
  pub split_host_port : Bytes → Fallible (Bytes × Bytes)
  pub parse_uint16 : Bytes → Fallible ℕ
  pub parse_ip : Bytes → Option ParsedIp
  pub join_host_port : Bytes → Bytes → Bytes
  pub itoa : ℕ → Bytes
  pub ip_string : Bytes → Bytes
  pub parse_addr : Bytes → Fallible Bytes
  pub is_unspecified : Bytes → Bool
  pub lookup_port : Bytes → Fallible ℕ
  pub parse_uint16-lt : (s : Bytes) (n : ℕ) → parse_uint16 s ≡ inr n → n < 2 ^ 16
  pub parse_ip4 : (s b : Bytes) → parse_ip s ≡ some (ip4 b) → length b ≡ 4
  pub parse_ip6 : (s b : Bytes) → parse_ip s ≡ some (ip6 b) → length b ≡ 16

-- binary.BigEndian.AppendUint16 of uint16(n).
abbrev pub append_uint16 : Bytes → ℕ → Bytes
append_uint16 b n = b ++ ((n % 2 ^ 16 / 256) ∷ (n % 256) ∷ [])

-- The part of appendSOCKS5Address that depends on the kind of host.
unfoldable pub append_host : Bytes → Bytes → Option ParsedIp → Fallible Bytes
append_host b host (some (ip4 ip)) = inr (b ++ addr_type_ipv4 ∷ ip)
append_host b host (some (ip6 ip)) = inr (b ++ addr_type_ipv6 ∷ ip)
append_host b host (some not_ip) = inl (message "IP address not IPv4 or IPv6")
append_host b host none =
    guard (leb (length host) 255) (message "domain name length is over 255")
    >> inr (b ++ addr_type_domain_name ∷ (length host % 256) ∷ host)

unfoldable pub append_socks5_address : Net → Bytes → Bytes → Fallible Bytes
append_socks5_address net b address = net.split_host_port address >>= λ (hp : Bytes × Bytes).
    net.parse_uint16 hp.1 >>= λ (port_num : ℕ).
    append_host b hp.0 (net.parse_ip hp.0) >>= λ (b' : Bytes). inr (append_uint16 b' port_num)

-- `ip` is none for the zero netip.Addr, otherwise the 4 or 16 bytes of the address.
pub record Address : Type 0 where
  pub name : Bytes
  pub ip : Option Bytes
  pub port : ℕ

-- binary.BigEndian.Uint16 of two bytes.
abbrev pub uint16 : Bytes → ℕ
uint16 (h ∷ l ∷ _) = h * 256 + l
uint16 _ = 0

-- One Read into a single byte, which stays as it is if nothing comes.
abbrev pub first_or : ℕ → Bytes → ℕ
first_or byte [] = byte
first_or byte (b ∷ _) = b

abbrev pub checked : Bytes × Fault × Source → Fallible (Bytes × Source)
checked (b, none, src) = inr (b, src)
checked (b, some e, src) = inl e

-- The cases of readAddr on the type of the address, in whose byte the length of a name is read.
unfoldable pub read_host : ℕ → Source → Fallible (Address × Source)
read_host t src =
    if t == addr_type_ipv4
    then (checked (read_full 4 src) >>= λ (r : Bytes × Source).
        inr (record { name = []; ip = some r.0; port = 0 }, r.1))
    else if t == addr_type_ipv6
    then (checked (read_full 16 src) >>= λ (r : Bytes × Source).
        inr (record { name = []; ip = some r.0; port = 0 }, r.1))
    else if t == addr_type_domain_name
    then (checked (read 1 src) >>= λ (l : Bytes × Source).
        checked (read_full (first_or t l.0) l.1) >>= λ (r : Bytes × Source).
        inr (record { name = r.0; ip = none; port = 0 }, r.1))
    else inl (message "unrecognized address type")

unfoldable pub read_addr : Source → Fallible (Address × Source)
read_addr src = checked (read 1 src) >>= λ (t : Bytes × Source).
    read_host (first_or 0 t.0) t.1 >>= λ (a : Address × Source).
    checked (read_full 2 a.1) >>= λ (p : Bytes × Source).
    inr (record a.0 { port = uint16 p.0 }, p.1)

-- addrToString of an address that is not nil.
unfoldable pub addr_to_string : Net → Address → Bytes
addr_to_string net a = elim a.ip [
  | some ip ↦ net.join_host_port (net.ip_string ip) (net.itoa a.port)
  | none ↦ net.join_host_port a.name (net.itoa a.port)
]
