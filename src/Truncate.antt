-- ===== src/Truncate.antt =====
-- network/dnstruncate/packet_relay.go: the relay that answers a DNS request with a truncated
-- response. The mutex makes each call of the sender one step; the channel is a list of packets with
-- its bound, and `closed` tells that it is closed, too.
pub mod Response
pub mod Queue
use bfx_outline_sdk.Prelude.{
  ℕ, ◌+◌, Option, none, some, Bool, true, false, [], ◌∷◌, ◌++◌, not, ltb, ◌==◌, if◌then◌else◌,
  length, take, drop, get_or, set, List,
}
use bfx_outline_sdk.Io.{Bytes, GoError, Fault, message, wrapped, is_some}
use Prim.Native.Nat.{bit_and, bit_or}

abbrev pub standard_dns_port : ℕ
standard_dns_port = 53

abbrev pub dns_udp_min_msg_len : ℕ
dns_udp_min_msg_len = 12

-- The capacity of the channel.
abbrev pub queue_size : ℕ
queue_size = 16

abbrev pub err_closed : GoError
err_closed = message "packet relay already closed"

abbrev pub err_port_unreachable : GoError
err_port_unreachable = message "port is not reachable"

abbrev pub err_queue_full : GoError
err_queue_full = message "DNS truncation queue full"

-- netip.AddrPort.
pub record AddrPort : Type 0 where
  pub addr : Bytes
  pub port : ℕ

pub record DnsPacket : Type 0 where
  pub payload : Bytes
  pub source : AddrPort

-- What the sender and the receiver share.
pub record Association : Type 0 where
  pub closed : Bool
  pub ch : List DnsPacket

abbrev pub new_association : Association
new_association = record { closed = false; ch = [] }

unfoldable pub close : Association → Association × Fault
close s = if s.closed then (s, some err_closed) else (record s { closed = true }, none)

-- The response that SendPacket makes of a request: QR, TC and NoError, and ANCOUNT is QDCOUNT.
unfoldable pub truncated : Bytes → Bytes
truncated p =
    let b1 = set p 2 (bit_or (get_or p 2 0) 0x82) in
    let b2 = set b1 3 (bit_and (get_or b1 3 0) 0xf0) in take 6 b2 ++ take 2 (drop 4 b2) ++ drop 8 b2

-- The select with its default.
unfoldable pub push : Association → DnsPacket → Association × Fault
push s pkt =
    if ltb (length s.ch) queue_size
    then (record s { ch = s.ch ++ pkt ∷ [] }, none)
    else (s, some err_queue_full)

unfoldable pub send_packet : Association → Bytes → AddrPort → Association × Fault
send_packet s p destination =
    if s.closed
    then (s, some err_closed)
    else if not (destination.port == standard_dns_port)
    then (s, some (wrapped "UDP traffic to non-DNS port is not supported" err_port_unreachable))
    else if ltb (length p) dns_udp_min_msg_len
    then (s, some (message "invalid DNS message"))
    else push s (record { payload = truncated p; source = destination })

-- ReceivePackets returns, or waits for the channel.
pub data Outcome : Type 0 where
  returned : Fault → Outcome
  waiting : Outcome

-- The loop of ReceivePackets on what is in the channel; `handle` is HandlePacket of the handler.
unfoldable pub receive_loop : (DnsPacket → Fault) → Bool → List DnsPacket → List DnsPacket × Outcome
receive_loop handle closed [] = ([], if closed then returned none else waiting)
receive_loop handle closed (pkt ∷ rest) =
    let more = receive_loop handle closed rest in
    elim (handle pkt) [ some e ↦ (rest, returned (some e)) | none ↦ more ]

unfoldable pub receive_packets : (DnsPacket → Fault) → Association → Association × Outcome
receive_packets handle s =
    let (left, outcome) = receive_loop handle s.closed s.ch in (record s { ch = left }, outcome)
