-- ===== src/Shadowsocks/PacketConn/RoundTrip.antt =====
-- What goes through two packet connections with one key (transport/shadowsocks/packet_listener.go).
use bfx_outline_sdk.Prelude.{
  ℕ, ◌+◌, ◌≡◌, ◌≤◌, ltb, if◌then◌else◌, length, take, take_all, length-append, drop-length-append,
  none, some, inr, ◌++◌, arith, refl,
}
use bfx_outline_sdk.Io.{Bytes, Fault, Fallible, short_buffer}
use bfx_outline_sdk.Shadowsocks.Cipher.{Aead, EncryptionKey, new_aead}
use bfx_outline_sdk.Shadowsocks.Packet.{unpack-pack_salt}
use bfx_outline_sdk.Shadowsocks.PacketConn.{Socks, sealed_packet, write_to, open_packet, read_from}
use bfx_outline_sdk.Socks5.Address.{Net}
use bfx_outline_sdk.Socks5.Packet.{NetAddr, udp, make_net_addr, client_udp_buffer_size}

module _ (hkdf : Bytes → Bytes → Bytes → ℕ → Bytes × Fault) (key : EncryptionKey) (socks : Socks)
    (net : Net) where
  -- If the address of the target parses and can be split from what follows, its text makes a network
  -- address, the salt generator gives a salt of the cipher's salt size, the AEAD can be made from the key
  -- and the salt, its overhead is the tag size of the cipher and its nonce has 12 bytes at most, and the
  -- salt, the address, the payload and the overhead fit into the buffer of 16384 bytes: then WriteTo gives
  -- the connection one packet and returns the length of the payload and the error of the connection; and
  -- ReadFrom, where the connection gives it that packet without an error, returns the address, the payload as far as the
  -- caller's buffer takes it, and io.ErrShortBuffer just when it does not take it all.
  pub read_from-write_to :
      (b addr a salt : Bytes) (src : NetAddr) (aead : Aead) (get_salt : ℕ → Fallible Bytes)
      (e : Fault) (room : ℕ)
      → socks.parse_addr addr ≡ some a
      → socks.split_addr (a ++ b) ≡ some a
      → make_net_addr net udp (socks.addr_string a) ≡ inr src
      → get_salt key.cipher.salt_size ≡ inr salt
      → length salt ≡ key.cipher.salt_size
      → new_aead hkdf key salt ≡ inr aead
      → aead.overhead ≡ key.cipher.tag_size
      → aead.nonce_size ≤ 12
      → key.cipher.salt_size + (length a + length b) + aead.overhead ≤ 16384
      → (pkt : Bytes) × (write_to hkdf key socks net b addr get_salt e
          ≡ record { n = length b; err = e; packet = some pkt })
        × (read_from hkdf key socks net room (pkt, none)
            ≡ inr (record {
              payload = take room b;
              source = src;
              err = if ltb room (length b) then some short_buffer else none;
            }))
  unfolding write_to sealed_packet read_from open_packet
  read_from-write_to b addr a salt src aead get_salt e room pa sa ma hs ls ha ho hn fits =
      let len = length-append a b in
      let (pkt, packed, size, unpacked) =
        unpack-pack_salt hkdf key client_udp_buffer_size none (a ++ b) salt aead get_salt hs ls ha
          ho hn (omega arith) refl in
      (
        pkt,
        rw (pa, packed) refl,
        rw
            (
              take_all client_udp_buffer_size pkt (omega arith),
              unpacked,
              sa,
              ma,
              drop-length-append a b,
            )
            refl,
      )
