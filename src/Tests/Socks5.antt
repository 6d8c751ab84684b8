-- ===== src/Tests/Socks5.antt =====
-- Tests and instances for Socks5.
use bfx_outline_sdk.Prelude.{
  ◌↔◌, ◌^◌, Option-cases, ◌≢◌, ◌<◌, ℕ, arith, [], none, some, inl, inr, ◌∷◌, ◌≡◌, refl, true, false,
  ◌++◌,
}
use bfx_outline_sdk.Io.{wrapped, Bytes, GoError, Fallible, Wire, perfect, message, send}
use bfx_outline_sdk.Io.Source.{Source, read, read_full, read_full_loop, unread}
use bfx_outline_sdk.Socks5.Address.{
  Address, Net, append_socks5_address, append_host, read_addr, read_host, addr_to_string,
}
use bfx_outline_sdk.Socks5.Address.RoundTrip.{target, read_addr-append_socks5_address}
use bfx_outline_sdk.Socks5.Request.{
  read_reply, read_auth, read_method, request, request_bytes, method_request, read_response,
  connect_and_request,
}
use bfx_outline_sdk.Socks5.Request.Reply.{Releases}
use bfx_outline_sdk.Socks5.Request.Server.{serve, serve-request_bytes}
use bfx_outline_sdk.Socks5.Packet.{
  packet_bytes, read_from, listen_packet, make_net_addr, udp, bind_address, any_addr,
}
use bfx_outline_sdk.Socks5.Packet.RoundTrip.{delivered, read_from-packet_bytes}
use bfx_outline_sdk.Socks5.Packet.Release.{Leaks, listen_packet-Releases, listen_packet-Leaks}

eighty : (n : ℕ) → ◌≡◌ {A = Fallible ℕ} (inr 80) (inr n) → n < 2 ^ 16
eighty n h = let e : ◌≡◌ {A = ℕ} 80 n = cc h in omega arith

-- Every address is a domain name at port 80.
abbrev toy_net : Net
toy_net = record {
  split_host_port = λ s. inr (s, []);
  parse_uint16 = λ s. inr 80;
  parse_ip = λ s. none;
  join_host_port = λ h p. h;
  itoa = λ n. [];
  ip_string = λ b. b;
  parse_addr = λ s. inl (message "unable to parse IP");
  is_unspecified = λ b. true;
  lookup_port = λ s. inr 80;
  parse_uint16-lt = λ s n h. eighty n h;
  parse_ip4 = λ s b h. absurd (cc h);
  parse_ip6 = λ s b h. absurd (cc h);
}

-- "a.b", and what it is in the protocol.
abbrev host : Bytes
host = 97 ∷ 46 ∷ 98 ∷ []

abbrev encoded_host : Bytes
encoded_host = 3 ∷ 3 ∷ 97 ∷ 46 ∷ 98 ∷ 0 ∷ 80 ∷ []

append_runs : append_socks5_address toy_net (9 ∷ []) host ≡ inr (9 ∷ encoded_host)
unfolding append_socks5_address append_host
append_runs = refl

-- The address in two pieces, and one byte behind it.
abbrev pieces : Source
pieces = (3 ∷ 3 ∷ 97 ∷ [], none) ∷ (46 ∷ 98 ∷ 0 ∷ 80 ∷ 7 ∷ [], none) ∷ []

read_addr_runs : read_addr pieces ≡ inr (target host none 80, (7 ∷ [], none) ∷ [])
unfolding read_addr read_host read read_full read_full_loop
read_addr_runs = refl

read_addr-append_socks5_address_example :
    (h port_str : Bytes) × (port : ℕ) × (src' : Source) × (toy_net.split_host_port host
      ≡ inr (h, port_str))
    × (toy_net.parse_uint16 port_str ≡ inr port)
    × (read_addr pieces ≡ inr (target h (toy_net.parse_ip h) port, src'))
    × (unread src' ≡ 7 ∷ [])
read_addr-append_socks5_address_example =
    read_addr-append_socks5_address toy_net (9 ∷ []) host encoded_host (7 ∷ []) pieces append_runs
      (omega arith, refl, (omega arith, refl, tt)) refl

-- A proxy that refuses, and one that binds "a.b".
abbrev refusing : Source
refusing = (5 ∷ 2 ∷ 1 ∷ [], none) ∷ (0 ∷ 5 ∷ 5 ∷ 0 ∷ [], none) ∷ []

abbrev binding : Source
binding = (5 ∷ 0 ∷ 5 ∷ 0 ∷ 0 ∷ 3 ∷ 3 ∷ 97 ∷ 46 ∷ 98 ∷ 0 ∷ 80 ∷ [], none) ∷ []

abbrev fresh : Wire perfect
fresh = record { state = tt; sent = [] }

abbrev asked : Bytes
asked = 5 ∷ 1 ∷ 0 ∷ 5 ∷ 1 ∷ 0 ∷ encoded_host

asks : request_bytes toy_net none 1 host ≡ inr asked
unfolding request_bytes method_request append_socks5_address append_host
asks = refl

appends : append_socks5_address toy_net [] host ≡ inr encoded_host
unfolding append_socks5_address append_host
appends = refl

sends : (send perfect fresh asked).2 ≡ none
unfolding send
sends = refl

serve-request_bytes_example :
    (h port_str : Bytes) × (port : ℕ) × (src' : Source) × (toy_net.split_host_port host
      ≡ inr (h, port_str))
    × (toy_net.parse_uint16 port_str ≡ inr port)
    × (serve ((asked, none) ∷ []) ≡ inr (none, 1, target h (toy_net.parse_ip h) port, src'))
    × (unread src' ≡ [])
serve-request_bytes_example =
    serve-request_bytes toy_net none 1 host asked [] ((asked, none) ∷ []) tt asks
      (omega arith, refl, tt) refl

abbrev packet : Bytes
packet = 0 ∷ 0 ∷ 0 ∷ (encoded_host ++ 8 ∷ 9 ∷ [])

packs : packet_bytes toy_net (8 ∷ 9 ∷ []) host ≡ inr packet
unfolding packet_bytes append_socks5_address append_host
packs = refl

read_from-packet_bytes_example :
    (h port_str : Bytes) × (port : ℕ) × (toy_net.split_host_port host ≡ inr (h, port_str))
    × (toy_net.parse_uint16 port_str ≡ inr port)
    × (read_from toy_net 2 (packet, none)
        ≡ delivered (8 ∷ 9 ∷ []) (
            make_net_addr toy_net udp
              (addr_to_string toy_net (target h (toy_net.parse_ip h) port))))
read_from-packet_bytes_example =
    read_from-packet_bytes toy_net 2 (8 ∷ 9 ∷ []) host packet packs (omega arith) (omega arith)
      (omega arith)

-- The proxy binds 0.0.0.0, and its own address cannot be read.
abbrev binding_any : Source
binding_any = (5 ∷ 0 ∷ 5 ∷ 0 ∷ 0 ∷ 1 ∷ 0 ∷ 0 ∷ 0 ∷ 0 ∷ 0 ∷ 80 ∷ [], none) ∷ []

abbrev any_ip : Address
any_ip = record { name = []; ip = some (0 ∷ 0 ∷ 0 ∷ 0 ∷ []); port = 80 }

connects_any :
    (connect_and_request perfect toy_net none (inr (fresh, binding_any)) 3 any_addr).result
    ≡ inr (any_ip, [])
unfolding connect_and_request request request_bytes method_request append_socks5_address append_host
    send read_response read_method read_auth read_reply read_addr read_host read read_full
    read_full_loop
connects_any = refl

no_bind :
    bind_address toy_net [] any_ip
    ≡ inl (wrapped "failed to parse bind address" (message "unable to parse IP"))
unfolding bind_address
no_bind = refl

abbrev bind_error : GoError
bind_error = wrapped "failed to parse bind address" (message "unable to parse IP")

listen_packet-Leaks_example :
    Leaks perfect toy_net []
      (λ a. inr tt)
      bind_error
      (listen_packet perfect toy_net none (inr (fresh, binding_any)) [] (λ a. inr tt))
    ↔ ((x : Address × Source) × ((connect_and_request perfect toy_net none
            (inr (fresh, binding_any))
            3
            any_addr).result
          ≡ inr x)
        × (bind_address toy_net [] x.0 ≡ inl bind_error))
listen_packet-Leaks_example =
    listen_packet-Leaks perfect toy_net [] (λ a. inr tt) none (inr (fresh, binding_any)) bind_error

leaves_open :
    Leaks perfect toy_net []
      (λ a. inr tt)
      bind_error
      (listen_packet perfect toy_net none (inr (fresh, binding_any)) [] (λ a. inr tt))
leaves_open =
    (listen_packet-Leaks perfect toy_net [] (λ a. inr tt) none (inr (fresh, binding_any))
        bind_error).1
      ((any_ip, []), connects_any, no_bind)

-- Where the proxy binds an address of its own.
abbrev specified_net : Net
specified_net = record toy_net { is_unspecified = λ b. false }

binds : (a : Address) (e : GoError) → bind_address specified_net [] a ≢ inl e
unfolding bind_address
binds a e h = elim (Option-cases a.ip) [
  | inl z ↦ absurd (cc (rw z at h))
  | inr (ip, z) ↦ absurd (cc (rw z at h))
]

listen_packet-Releases_example :
    Releases perfect specified_net
      (listen_packet perfect specified_net none (inr (fresh, binding)) [] (λ a. inr tt))
listen_packet-Releases_example =
    listen_packet-Releases perfect specified_net [] (λ a. inr tt) none (inr (fresh, binding)) binds
