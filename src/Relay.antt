-- ===== src/Relay.antt =====
-- network/packetrelay: the relay with an idle timeout (Relay/Timeout), and the relay over a packet
-- listener (Relay/Listener).
pub mod Timeout
pub mod Listener
