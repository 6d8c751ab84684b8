-- ===== src/Shadowsocks.antt =====
-- transport/shadowsocks: encrypted streams and packets.
pub mod Nonce
pub mod Cipher
pub mod Packet
pub mod PacketConn
pub mod Writer
pub mod Reader
pub mod Salt
