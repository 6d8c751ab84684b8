-- ===== src/Shadowsocks/PacketConn.antt =====
-- transport/shadowsocks/packet_listener.go: WriteTo and ReadFrom of packetConn. The package socks is not
-- code of the repository: its functions on addresses are parameters.
pub mod RoundTrip
use bfx_outline_sdk.Prelude.{
  ℕ, ◌+◌, ◌-◌, ◌*◌, drop, ltb, if◌then◌else◌, length, take, Option, none, some, inl, inr, ◌++◌,
}
use bfx_outline_sdk.Io.{Bytes, GoError, Fault, Fallible, ◌>>=◌, wrap, message, short_buffer}
use bfx_outline_sdk.Shadowsocks.Cipher.{Aead, EncryptionKey, new_aead}
use bfx_outline_sdk.Shadowsocks.Packet.{pack_salt, unpack}
use bfx_outline_sdk.Socks5.Address.{Net}
use bfx_outline_sdk.Socks5.Packet.{NetAddr, udp, make_net_addr, client_udp_buffer_size}

-- ParseAddr, SplitAddr and String of package socks.
pub record Socks : Type 0 where
  pub parse_addr : Bytes → Option Bytes
  pub split_addr : Bytes → Option Bytes
  pub addr_string : Bytes → Bytes

-- What WriteTo returns, and the packet that it gave to Write of the connection.
pub record SentPacket : Type 0 where
  pub n : ℕ
  pub err : Fault
  pub packet : Option Bytes

-- What ReadFrom returns without an error before the copy: the bytes copied, the source, and the error
-- of a buffer that is too short.
pub record Received : Type 0 where
  pub payload : Bytes
  pub source : NetAddr
  pub err : Fault

abbrev pub or_fail : GoError → Option Bytes → Fallible Bytes
or_fail e none = inl e
or_fail e (some a) = inr a

-- Write of the connection, which returns `e`.
abbrev pub after_write : ℕ → Fault → Fallible Bytes → SentPacket
after_write n e (inl x) = record { n = 0; err = some x; packet = none }
after_write n e (inr buf) = record { n = n; err = e; packet = some buf }

-- The copy into a buffer of length `room`.
abbrev pub copy_payload : ℕ → Bytes → NetAddr → Received
copy_payload room p src = record {
  payload = take room p;
  source = src;
  err = if ltb room (length p) then some short_buffer else none;
}

module _ (hkdf : Bytes → Bytes → Bytes → ℕ → Bytes × Fault) (key : EncryptionKey) (socks : Socks)
    (net : Net) where
  -- The packet of WriteTo.
  unfoldable pub sealed_packet : Bytes → Bytes → (ℕ → Fallible Bytes) → Fallible Bytes
  sealed_packet b addr get_salt =
      or_fail (message "failed to parse target address") (socks.parse_addr addr) >>= λ (a : Bytes).
      pack_salt hkdf key client_udp_buffer_size (a ++ b) get_salt

  unfoldable pub write_to : Bytes → Bytes → (ℕ → Fallible Bytes) → Fault → SentPacket
  write_to b addr get_salt e = after_write (length b) e (sealed_packet b addr get_salt)

  -- ReadFrom behind the read, which takes what fits into the buffer of the pool.
  unfoldable pub open_packet : ℕ → Bytes → Fallible Received
  open_packet room pkt = unpack hkdf key none pkt >>= λ (buf : Bytes).
      or_fail (message "failed to read source address") (socks.split_addr buf) >>= λ (a : Bytes).
      wrap "failed to convert incoming address" (make_net_addr net udp (socks.addr_string a))
      >>= λ (src : NetAddr). inr (copy_payload room (drop (length a) buf) src)

  unfoldable pub read_from : ℕ → Bytes × Fault → Fallible Received
  read_from room (datagram, some e) = inl e
  read_from room (datagram, none) = open_packet room (take client_udp_buffer_size datagram)
