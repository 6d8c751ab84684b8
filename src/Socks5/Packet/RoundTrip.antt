-- ===== src/Socks5/Packet/RoundTrip.antt =====
-- ReadFrom takes apart what WriteTo sent, and what ListenPacket leaves open.
use bfx_outline_sdk.Prelude.{
  drop-length-append, take_all, take-length-append, append-nil, ap, length-append, ◌∙◌, arith, ◌^◌,
  sym, leb, lt→ltb, length, ◌≤◌, ◌<◌, ℕ, [], none, inl, inr, ◌∷◌, ◌≡◌, ◌++◌, refl, true,
}
use bfx_outline_sdk.Io.{
  >>=-eq-inr, wrap-inr, Bytes, Fallible, ◌>>=◌, ◌>>◌, guard, wrap, short_buffer,
}
use bfx_outline_sdk.Io.Source.{read, unread}
use bfx_outline_sdk.Socks5.Address.{Net, append_socks5_address, addr_to_string}
use bfx_outline_sdk.Socks5.Address.RoundTrip.{
  Encodable, target, encoded, read_addr-target, append_socks5_address-encoded,
}
use bfx_outline_sdk.Socks5.Packet.{
  NetAddr, udp, make_net_addr, client_udp_buffer_size, parse_packet, read_from, packet_bytes,
}

read_front :
    (x rest : Bytes)
    → 0 < length rest
    → read (length x) ((x ++ rest, none) ∷ []) ≡ (x, none, (rest, none) ∷ [])
unfolding read
read_front x rest h = rw (
  lt→ltb (length x) (length (x ++ rest)) (omega (arith, length-append x rest)),
  take-length-append x rest,
  drop-length-append x rest,
)

-- The address, if MakeNetAddr takes it, with the payload.
abbrev pub delivered : Bytes → Fallible NetAddr → Fallible (Bytes × NetAddr)
delivered payload m = wrap "failed to convert address" m >>= λ (addr : NetAddr). inr (payload, addr)

-- The last steps of ReadFrom, for the bytes `u` that are left.
abbrev last_steps : ℕ → Bytes → Fallible NetAddr → Fallible (Bytes × NetAddr)
last_steps room u m = wrap "failed to convert address" m >>= λ (addr : NetAddr).
    guard (leb (length u) room) short_buffer >> inr (u, addr)

last_steps-delivered :
    (room : ℕ) (payload u : Bytes) (m : Fallible NetAddr)
    → length payload ≤ room
    → u ≡ payload
    → last_steps room u m ≡ delivered payload m
last_steps-delivered room payload u (inl e) h same = refl
last_steps-delivered room payload u (inr addr) h same =
    let fits : leb (length u) room ≡ true = ground (arith, ap length same) in
    rw fits (ap (λ x. inr (x, addr)) same)

-- A packet with its header, and an address behind it.
parse_packet-header :
    (net : Net) (room port : ℕ) (host payload : Bytes)
    → Encodable host (net.parse_ip host)
    → port < 2 ^ 16
    → let t = encoded host (net.parse_ip host) port ++ payload in
      10 ≤ length (0 ∷ 0 ∷ 0 ∷ t)
      → length payload ≤ room
      → parse_packet net room (0 ∷ 0 ∷ 0 ∷ t) ≡ (
          wrap "failed to convert address"
            (make_net_addr net udp (addr_to_string net (target host (net.parse_ip host) port)))
          >>= λ (addr : NetAddr). inr (payload, addr))
unfolding parse_packet
parse_packet-header net room port host payload enc lt long fits =
    let t = encoded host (net.parse_ip host) port ++ payload in
    let (s, r, left, smooth) =
      read_addr-target host payload (net.parse_ip host) port ((t, none) ∷ []) enc lt
        (omega arith, refl, tt) (append-nil t) in
    let ten : leb 10 (length (0 ∷ 0 ∷ 0 ∷ t)) ≡ true = ground arith in
    rw (ten, read_front (0 ∷ 0 ∷ []) (0 ∷ t) (omega arith), read_front (0 ∷ []) t (omega arith), r)
      (last_steps-delivered room payload (unread s)
        (make_net_addr net udp (addr_to_string net (target host (net.parse_ip host) port))) fits
        left)

-- What WriteTo sends to an address and comes back whole is taken apart into the payload and the
-- address, as far as MakeNetAddr takes it.
pub read_from-packet_bytes :
    (net : Net) (room : ℕ) (payload addr pkt : Bytes)
    → packet_bytes net payload addr ≡ inr pkt
    → 10 ≤ length pkt
    → length pkt ≤ client_udp_buffer_size
    → length payload ≤ room
    → (host port_str : Bytes) × (port : ℕ) × (net.split_host_port addr ≡ inr (host, port_str))
      × (net.parse_uint16 port_str ≡ inr port)
      × (read_from net room (pkt, none) ≡ (
          wrap "failed to convert address"
            (make_net_addr net udp (addr_to_string net (target host (net.parse_ip host) port)))
          >>= λ (a : NetAddr). inr (payload, a)))
unfolding packet_bytes read_from
read_from-packet_bytes net room payload addr pkt h long short fits =
    let (buffer, ok, eq) =
      >>=-eq-inr
        (wrap "failed to append SOCKS5 address" (append_socks5_address net (0 ∷ 0 ∷ 0 ∷ []) addr)) _
        h in
    let (host, port_str, port, split, parse, enc, shape) =
      append_socks5_address-encoded net (0 ∷ 0 ∷ 0 ∷ []) addr buffer (wrap-inr _ _ ok) in
    let t = encoded host (net.parse_ip host) port ++ payload in
    let whole : pkt ≡ 0 ∷ 0 ∷ 0 ∷ t = sym (cc eq) ∙ ap (λ x. x ++ payload) shape in
    (
      host,
      port_str,
      port,
      split,
      parse,
      ap (parse_packet net room) (take_all client_udp_buffer_size pkt short ∙ whole)
          ∙ parse_packet-header net room port host payload enc
              (net.parse_uint16-lt port_str port parse) (omega (arith, ap length whole)) fits,
    )
