-- ===== src/Socks5.antt =====
-- transport/socks5: addresses (socks5.go), the client's request (stream_dialer.go) and its packets
-- (packet_listener.go).
pub mod Address
pub mod Request
pub mod Packet
