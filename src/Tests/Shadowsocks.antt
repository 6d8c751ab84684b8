-- ===== src/Tests/Shadowsocks.antt =====
-- Tests and instances for Shadowsocks.
use bfx_outline_sdk.Prelude.{
  inl, ◌<◌, take, inr, replicate, ◌^◌, ◌⊎◌, ℕ, ◌≡◌, refl, Option, none, some, List, [], ◌∷◌, length,
  arith, true, false, ◌+◌,
}
use bfx_outline_sdk.Io.{
  short_buffer, Fallible, Wire, Bytes, Fault, perfect, send, unexpected_eof, eof,
}
use bfx_outline_sdk.Io.Source.{Source, read}
use bfx_outline_sdk.Shadowsocks.Cipher.{simple_evp_bytes_to_key, evp_loop}
use bfx_outline_sdk.Shadowsocks.Cipher.Table.{
  Ciphers, Keyed, new_encryption_key, new_encryption_key-Keyed,
}
use bfx_outline_sdk.Shadowsocks.PacketConn.{Socks, write_to}
use bfx_outline_sdk.Shadowsocks.PacketConn
use bfx_outline_sdk.Shadowsocks.PacketConn.RoundTrip.{read_from-write_to}
use bfx_outline_sdk.Socks5.Address.{Net}
use bfx_outline_sdk.Socks5.Packet.{udp, domain_addr, make_net_addr}
use bfx_outline_sdk.Shadowsocks.Nonce.{increment, is_zero, value, value-increment}
use bfx_outline_sdk.Shadowsocks.Cipher.{Aead, EncryptionKey, new_aead}
use bfx_outline_sdk.Shadowsocks.Salt.{Opened, open_writer, prefix_get_salt}
use bfx_outline_sdk.Shadowsocks.Writer.Write.{Writes, write-Writes}
use bfx_outline_sdk.Shadowsocks.Writer.{
  new_session, write, Session, flush_lazy, read_from, lazy_write, enqueue, flush, flush_pending,
  encrypt_block, first_read, transfer,
}
use bfx_outline_sdk.Shadowsocks.Writer.Lazy.{lazy_write-Queues, Queues}
use bfx_outline_sdk.Shadowsocks.Writer.ReadFrom.{read_from-Reads}
use bfx_outline_sdk.Shadowsocks.Writer.Input.{Reads}

value-increment_example :
    (value (increment (255 ∷ 255 ∷ 7 ∷ [])) ≡ value (255 ∷ 255 ∷ 7 ∷ []) + 1)
    ⊎ ((value (increment (255 ∷ 255 ∷ 7 ∷ [])) ≡ 0) × (value (255 ∷ 255 ∷ 7 ∷ []) + 1 ≡ 256 ^ 3))
value-increment_example =
    value-increment (255 ∷ 255 ∷ 7 ∷ []) (omega arith, (omega arith, (omega arith, tt)))

increment_runs : increment (255 ∷ 255 ∷ 7 ∷ []) ≡ 0 ∷ 0 ∷ 8 ∷ []
unfolding increment
increment_runs = refl

-- An AEAD that puts the first byte of the nonce in front of the text.
toy_open : Bytes → Bytes × Fault
toy_open [] = ([], some unexpected_eof)
toy_open (b ∷ p) = (p, none)

first_byte : Bytes → ℕ
first_byte [] = 0
first_byte (b ∷ p) = b

abbrev toy : Aead
unfolding toy_open
toy = record {
  nonce_size = 2;
  overhead = 1;
  seal = λ nonce p. first_byte nonce ∷ p;
  open_sealed = λ nonce p. toy_open p;
  open_sealed-seal = λ nonce p h. refl;
  length-seal = λ nonce p h. omega arith;
}

abbrev salt : Bytes
salt = 90 ∷ 91 ∷ []

-- Two bytes wait for the first write.
abbrev waiting : Session perfect
waiting = record {
  writer = record { state = tt; sent = [] };
  need_flush = true;
  pending = 1 ∷ 2 ∷ [];
  counter = 0 ∷ 0 ∷ [];
}

abbrev input : Source
input = (3 ∷ 4 ∷ [], none) ∷ (5 ∷ [], some eof) ∷ []

sent_after : Option (Session perfect × ℕ × Fault × Source) → List Bytes
sent_after none = []
sent_after (some (s, _, _, _)) = s.writer.sent

-- Without another thread the pending bytes and the first read make one chunk.
read_from_runs :
    sent_after (read_from perfect salt toy false waiting input)
    ≡ (90 ∷ 91 ∷ 0 ∷ 0 ∷ 4 ∷ 1 ∷ 1 ∷ 2 ∷ 3 ∷ 4 ∷ []) ∷ (2 ∷ 0 ∷ 1 ∷ 3 ∷ 5 ∷ []) ∷ []
unfolding sent_after read_from first_read transfer read flush flush_pending flush_lazy enqueue
    encrypt_block send increment is_zero first_byte toy
read_from_runs = refl

-- With one that flushes, they are two.
read_from_flushed_runs :
    sent_after (read_from perfect salt toy true waiting input)
    ≡ (90 ∷ 91 ∷ 0 ∷ 0 ∷ 2 ∷ 1 ∷ 1 ∷ 2 ∷ [])
      ∷ (2 ∷ 0 ∷ 2 ∷ 3 ∷ 3 ∷ 4 ∷ [])
      ∷ (4 ∷ 0 ∷ 1 ∷ 5 ∷ 5 ∷ [])
      ∷ []
unfolding sent_after read_from first_read transfer read flush flush_pending flush_lazy enqueue
    encrypt_block send increment is_zero first_byte toy
read_from_flushed_runs = refl

flushes : (true ≡ true) → (flush_lazy perfect salt toy waiting).1 ≡ none
unfolding flush_lazy flush flush_pending encrypt_block send
flushes h = refl

read_from-Reads_example :
    (s' : Session perfect) × (n : ℕ) × (err : Fault) × (src' : Source) × (read_from perfect salt toy
        true waiting input
      ≡ some (s', n, err, src'))
    × Reads perfect salt toy waiting input s' n src' (err ≡ none)
read_from-Reads_example =
    read_from-Reads perfect salt toy (λ c p h. absurd (cc h)) true waiting input
      (omega arith, λ h. absurd (cc h)) flushes

lazy_write-Queues_example :
    (s' : Session perfect) × (n : ℕ) × (err : Fault) × (lazy_write perfect salt toy waiting
        (3 ∷ 4 ∷ [])
      ≡ some (s', n, err))
    × Queues perfect salt toy waiting (3 ∷ 4 ∷ []) s' n err
lazy_write-Queues_example = lazy_write-Queues perfect salt toy waiting (3 ∷ 4 ∷ []) (omega arith)

port_80 : (n : ℕ) → ◌≡◌ {A = Fallible ℕ} (inr 80) (inr n) → n < 2 ^ 16
port_80 n h = let e : ◌≡◌ {A = ℕ} 80 n = cc h in omega arith

abbrev toy_net : Net
toy_net = record {
  split_host_port = λ s. inr (s, []);
  parse_uint16 = λ s. inr 80;
  parse_ip = λ s. none;
  join_host_port = λ h p. h;
  itoa = λ n. [];
  ip_string = λ b. b;
  parse_addr = λ s. inl eof;
  is_unspecified = λ b. true;
  lookup_port = λ s. inr 80;
  parse_uint16-lt = λ s n h. port_80 n h;
  parse_ip4 = λ s b h. absurd (cc h);
  parse_ip6 = λ s b h. absurd (cc h);
}

abbrev key : EncryptionKey
key = record {
  cipher = record { new_instance = λ k. inr toy; key_size = 2; salt_size = 2; tag_size = 1 };
  secret = [];
}

abbrev toy_hkdf : Bytes → Bytes → Bytes → ℕ → Bytes × Fault
toy_hkdf secret s info n = (replicate n 0, none)

-- An address is its length and its bytes.
abbrev split_toy : Bytes → Option Bytes
split_toy [] = none
split_toy (n ∷ r) = some (n ∷ take n r)

abbrev toy_socks : Socks
toy_socks = record {
  parse_addr = λ s. some (length s ∷ s);
  split_addr = split_toy;
  addr_string = λ a. a;
}

read_from-write_to_example :
    (pkt : Bytes) × (write_to toy_hkdf key toy_socks toy_net
        (1 ∷ 2 ∷ 3 ∷ [])
        (97 ∷ [])
        (λ n. inr salt)
        none
      ≡ record { n = 3; err = none; packet = some pkt })
    × (PacketConn.read_from toy_hkdf key toy_socks toy_net 2 (pkt, none)
        ≡ inr (record {
          payload = 1 ∷ 2 ∷ [];
          source = domain_addr udp (1 ∷ 97 ∷ []);
          err = some short_buffer;
        }))
unfolding new_aead toy make_net_addr
read_from-write_to_example =
    read_from-write_to toy_hkdf key toy_socks toy_net (1 ∷ 2 ∷ 3 ∷ []) (97 ∷ []) (1 ∷ 97 ∷ []) salt
      (domain_addr udp (1 ∷ 97 ∷ [])) toy (λ n. inr salt) none 2 refl refl refl refl refl refl refl
      (omega arith) (omega arith)

-- A hash of two bytes, for the test.
abbrev toy_hash : Bytes → Bytes
toy_hash p = length p ∷ 7 ∷ []

abbrev toy_ciphers : Ciphers
toy_ciphers = record { chacha20_poly1305 = λ k. inr toy; aes_gcm = λ k. inr toy; to_upper = λ s. s }

new_encryption_key-Keyed_example :
    Keyed toy_hash
      (1 ∷ 2 ∷ 3 ∷ [])
      (new_encryption_key toy_ciphers toy_hash "AES-192-GCM" (1 ∷ 2 ∷ 3 ∷ []))
new_encryption_key-Keyed_example =
    new_encryption_key-Keyed toy_ciphers toy_hash "AES-192-GCM" (1 ∷ 2 ∷ 3 ∷ []) (λ p. omega arith)

simple_evp_bytes_to_key_runs :
    simple_evp_bytes_to_key toy_hash (1 ∷ 2 ∷ 3 ∷ []) 5 ≡ some (3 ∷ 7 ∷ 5 ∷ 7 ∷ 5 ∷ [])
unfolding simple_evp_bytes_to_key evp_loop
simple_evp_bytes_to_key_runs = refl

write-Writes_example :
    (s' : Session perfect) × (n : ℕ) × (err : Fault) × (write perfect salt toy true waiting
        (3 ∷ 4 ∷ [])
      ≡ some (s', n, err))
    × Writes perfect salt toy waiting (3 ∷ 4 ∷ []) s' n err
write-Writes_example =
    write-Writes perfect salt toy (λ c p h. absurd (cc h)) true waiting (3 ∷ 4 ∷ [])
      (omega arith, λ h. absurd (cc h)) flushes

-- A writer whose salts start with 90, and whose other bytes are sevens.
abbrev sevens : ℕ → Fallible Bytes
sevens n = inr (replicate n 7)

abbrev idle_wire : Wire perfect
idle_wire = record { state = tt; sent = [] }

abbrev opened : Opened perfect
opened = record {
  salt = 90 ∷ 7 ∷ [];
  aead = toy;
  session = record { writer = idle_wire; need_flush = false; pending = []; counter = 0 ∷ 0 ∷ [] };
}

abbrev opened_after : Session perfect
opened_after = record {
  writer = record { state = tt; sent = (90 ∷ 7 ∷ 0 ∷ 0 ∷ 1 ∷ 1 ∷ 5 ∷ []) ∷ [] };
  need_flush = false;
  pending = [];
  counter = 2 ∷ 0 ∷ [];
}

open_writer_runs :
    open_writer (prefix_get_salt sevens (90 ∷ [])) (λ s. inr toy) 2 idle_wire ≡ inr opened
unfolding open_writer prefix_get_salt new_session toy
open_writer_runs = refl

write_runs :
    write perfect (90 ∷ 7 ∷ []) toy false opened.session (5 ∷ []) ≡ some (opened_after, 1, none)
unfolding write read_from transfer read flush flush_pending encrypt_block send increment is_zero
    first_byte toy
write_runs = refl
