-- ===== src/Socks5/Packet.antt =====
-- transport/socks5/packet_listener.go, and MakeNetAddr of transport/address.go. A packet that the
-- packet connection reads is the bytes that fit into the buffer, with the error of the read.
pub mod RoundTrip
pub mod Release
use bfx_outline_sdk.Prelude.{
  ◌&&◌, ◌==◌, length, take, leb, ◌*◌, if◌then◌else◌, ℕ, Option, [], none, some, inl, inr, ◌∷◌, ◌≡◌,
  ◌++◌, ◌⊎◌, true, false, zero, suc,
}
use bfx_outline_sdk.Io.{
  Bytes, GoError, Fault, Fallible, ◌>>=◌, ◌>>◌, guard, wrap, message, wrapped, short_buffer, Writer,
  Wire, send,
}
use bfx_outline_sdk.Io.Source.{Source, read, unread, bytes_reader}
use bfx_outline_sdk.Socks5.Address.{
  ParsedIp, Address, Net, append_socks5_address, checked, read_addr, addr_to_string, first_or,
}
use bfx_outline_sdk.Socks5.Request.{
  Credentials, byte_at, cmd_udp_associate, connect_and_request, Attempt,
}

pub data Network : Type 0 where
  tcp udp unknown : Network

-- A net.Addr: net.TCPAddr, net.UDPAddr, or the domainAddr of transport/address.go.
pub data NetAddr : Type 0 where
  tcp_addr udp_addr : ParsedIp → ℕ → NetAddr
  domain_addr : Network → Bytes → NetAddr

-- The branch of MakeNetAddr on the network, for a host that is an IP address.
abbrev pub ip_addr : Network → ParsedIp → ℕ → Fallible NetAddr
ip_addr tcp ip port = inr (tcp_addr ip port)
ip_addr udp ip port = inr (udp_addr ip port)
ip_addr unknown ip port = inl (message "unknown network")

unfoldable pub make_net_addr : Net → Network → Bytes → Fallible NetAddr
make_net_addr net network address = net.split_host_port address >>= λ (hp : Bytes × Bytes).
    net.lookup_port hp.1 >>= λ (port : ℕ). elim (net.parse_ip hp.0) [
      | some ip ↦ ip_addr network ip port
      | none ↦ inr (domain_addr network (net.join_host_port hp.0 (net.itoa port)))
    ]

-- clientUDPBufferSize.
abbrev pub client_udp_buffer_size : ℕ
client_udp_buffer_size = 16 * 1024

-- ReadFrom of packetConn behind its read; `room` is the length of the caller's buffer.
unfoldable pub parse_packet : Net → ℕ → Bytes → Fallible (Bytes × NetAddr)
parse_packet net room pkt =
    guard (leb 10 (length pkt)) (message "invalid SOCKS5 UDP packet: too short")
    >> checked (read 2 (bytes_reader pkt))
    >>= λ (rsv : Bytes × Source).
        guard (byte_at rsv.0 0 == 0 && byte_at rsv.0 1 == 0) (message "invalid reserved bytes")
        >> checked (read 1 rsv.1)
        >>= λ (frag : Bytes × Source).
            guard (first_or 0 frag.0 == 0) (message "fragmentation is not supported")
            >> wrap "failed to read address" (read_addr frag.1)
            >>= λ (a : Address × Source).
                wrap "failed to convert address" (make_net_addr net udp (addr_to_string net a.0))
                >>= λ (addr : NetAddr).
                    guard (leb (length (unread a.1)) room) short_buffer >> inr (unread a.1, addr)

-- `datagram` is what arrives: the read takes what fits into the buffer of the pool.
unfoldable pub read_from : Net → ℕ → Bytes × Fault → Fallible (Bytes × NetAddr)
read_from net room (datagram, some e) = inl e
read_from net room (datagram, none) = parse_packet net room (take client_udp_buffer_size datagram)

-- What WriteTo writes.
unfoldable pub packet_bytes : Net → Bytes → Bytes → Fallible Bytes
packet_bytes net b addr =
    wrap "failed to append SOCKS5 address" (append_socks5_address net (0 ∷ 0 ∷ 0 ∷ []) addr)
    >>= λ (buffer : Bytes). inr (buffer ++ b)

-- `addr` is the text of the destination.
unfoldable pub write_to : (w : Writer) → Net → Wire w → Bytes → Bytes → Wire w × ℕ × Fault
write_to w net pc b addr = elim (packet_bytes net b addr) [
  | inl e ↦ (pc, 0, some e)
  | inr p ↦ send w pc p
]

-- "0.0.0.0:0".
abbrev pub any_addr : Bytes
any_addr = 48 ∷ 46 ∷ 48 ∷ 46 ∷ 48 ∷ 46 ∷ 48 ∷ 58 ∷ 48 ∷ []

-- An unspecified address is replaced by that of the proxy, whose text is `remote`.
unfoldable pub bind_address : Net → Bytes → Address → Fallible Address
bind_address net remote a = elim a.ip [
  | none ↦ inr a
  | some ip ↦
      if net.is_unspecified ip
      then (wrap "failed to parse tcp address" (net.split_host_port remote)
          >>= λ (hp : Bytes × Bytes).
              wrap "failed to parse bind address" (net.parse_addr hp.0) >>= λ (ip' : Bytes).
              inr (record a { ip = some ip' }))
      else inr a
]

-- ListenPacket; `dial_packet` is what DialPacket answers for an address.
unfoldable pub listen_packet :
    (w : Writer) (net : Net) {P : Type 0}
    → Option Credentials
    → Fallible (Wire w × Source)
    → Bytes
    → (Bytes → Fallible P)
    → Attempt w net P
listen_packet w net cred dial remote dial_packet =
    let a = connect_and_request w net cred dial cmd_udp_associate any_addr in
    elim a.result [
      | inl e ↦ record { conn = a.conn; closed = a.closed; result = inl e }
      | inr x ↦ elim (bind_address net remote x.0) [
        | inl e ↦ record { conn = a.conn; closed = a.closed; result = inl e }
        | inr bind_addr ↦ elim (dial_packet (addr_to_string net bind_addr)) [
          | inl e ↦ record {
            conn = a.conn;
            closed = true;
            result = inl (wrapped "could not connect to packet endpoint" e);
          }
          | inr pc ↦ record { conn = a.conn; closed = a.closed; result = inr pc }
        ]
      ]
    ]
