-- ===== src/Tests/Reader.antt =====
-- Tests and instances for the reader of Shadowsocks streams.
use bfx_outline_sdk.Prelude.{
  ℕ, ◌≡◌, ◌++◌, none, some, [], ◌∷◌, length, arith, refl, List, inr, inl, Option, false,
}
use bfx_outline_sdk.Io.{
  Bytes, Fallible, Fault, GoError, Wire, Writer, perfect, send, eof, unexpected_eof, wrapped,
}
use bfx_outline_sdk.Io.Source.{Source, read_full, read_full_loop, unread}
use bfx_outline_sdk.Shadowsocks.Nonce.{is_zero, increment}
use bfx_outline_sdk.Shadowsocks.Cipher.{Aead}
use bfx_outline_sdk.Shadowsocks.Writer.{
  Session, new_session, read_from, flush, flush_pending, encrypt_block, transfer,
}
use bfx_outline_sdk.Shadowsocks.Reader.{
  ReadConverter, new_reader, write_to, ensure_leftover, read_chunk, init, init_salt, read_message,
  open_block, read_payload,
}
use bfx_outline_sdk.Shadowsocks.Reader.Upcoming.{SessionKey}
use bfx_outline_sdk.Shadowsocks.Reader.Carries.{Carries}
use bfx_outline_sdk.Shadowsocks.Reader.Drains.{Drains, Written}
use bfx_outline_sdk.Shadowsocks.Reader.Relay.{write_to-read_from}

-- An AEAD that puts the first byte of the nonce in front of the text, and checks it.
first_byte : Bytes → ℕ
first_byte [] = 0
first_byte (b ∷ p) = b

toy_open : Bytes → Bytes × Fault
toy_open [] = ([], some unexpected_eof)
toy_open (b ∷ p) = (p, none)

abbrev toy : Aead
unfolding toy_open
toy = record {
  nonce_size = 2;
  overhead = 1;
  seal = λ nonce p. first_byte nonce ∷ p;
  open_sealed = λ nonce p. toy_open p;
  open_sealed-seal = λ nonce p h. refl;
  length-seal = λ nonce p h. omega arith;
}

abbrev salt : Bytes
salt = 90 ∷ 91 ∷ []

abbrev new_toy : Bytes → Fallible Aead
new_toy s = inr toy

toy_key : SessionKey new_toy 2 salt toy
unfolding toy
toy_key = record {
  keyed_by = refl;
  length-salt = refl;
  some_salt = omega arith;
  tag_fits = omega arith;
}

-- The salt, one chunk of two bytes and one of one, in answers that do not follow the chunks.
abbrev net : Source
net =
    (90 ∷ 91 ∷ 0 ∷ 0 ∷ [], none) ∷ (2 ∷ 1 ∷ 7 ∷ [], none) ∷ (8 ∷ 2 ∷ 0 ∷ 1 ∷ 3 ∷ 9 ∷ [], none) ∷ []

abbrev reader_of : Source → ReadConverter
reader_of src = record { cr = new_reader src; leftover = [] }

abbrev nothing_sent : Wire perfect
nothing_sent = record { state = tt; sent = [] }

handed_over : Option (ReadConverter × Wire perfect × ℕ × Fault) → List Bytes × ℕ × Fault
handed_over none = ([], 0, none)
handed_over (some (c, out, n, err)) = (out.sent, n, err)

write_to_runs :
    handed_over (write_to new_toy 2 perfect 4 (reader_of net) nothing_sent 0)
    ≡ ((7 ∷ 8 ∷ []) ∷ (9 ∷ []) ∷ [], 3, none)
unfolding handed_over write_to ensure_leftover read_chunk init init_salt read_message open_block
    read_payload read_full read_full_loop increment toy toy_open send
write_to_runs = refl

-- The connection ends in the middle of the second chunk.
write_to_cut_runs :
    handed_over (
      write_to new_toy 2 perfect 4
        (reader_of ((90 ∷ 91 ∷ 0 ∷ 0 ∷ 2 ∷ 1 ∷ 7 ∷ 8 ∷ 2 ∷ 0 ∷ 1 ∷ [], none) ∷ []))
        nothing_sent
        0)
    ≡ ((7 ∷ 8 ∷ []) ∷ [], 2, some unexpected_eof)
unfolding handed_over write_to ensure_leftover read_chunk init init_salt read_message open_block
    read_payload read_full read_full_loop increment toy toy_open send
write_to_cut_runs = refl

carries : Carries salt toy (7 ∷ 8 ∷ 9 ∷ []) (reader_of net)
unfolding toy increment first_byte
carries = record {
  chunks = (7 ∷ 8 ∷ []) ∷ (9 ∷ []) ∷ [];
  sizes = ((omega arith, omega arith), ((omega arith, omega arith), tt));
  upcoming = inl (record {
    unopened = refl;
    bytes_left = refl;
    smooth = (omega arith, refl, (omega arith, refl, (omega arith, refl, tt)));
  });
  plaintext = refl;
}

abbrev input : Source
input = (7 ∷ 8 ∷ [], none) ∷ (9 ∷ [], some eof) ∷ []

abbrev writer_after : Session perfect
writer_after = record {
  writer = record {
    state = tt;
    sent = (90 ∷ 91 ∷ 0 ∷ 0 ∷ 2 ∷ 1 ∷ 7 ∷ 8 ∷ []) ∷ (2 ∷ 0 ∷ 1 ∷ 3 ∷ 9 ∷ []) ∷ [];
  };
  need_flush = false;
  pending = [];
  counter = 4 ∷ 0 ∷ [];
}

read_from_fresh_runs :
    read_from perfect salt toy false (new_session perfect salt toy nothing_sent) input
    ≡ some (writer_after, 3, none, [])
unfolding new_session read_from transfer flush flush_pending encrypt_block send increment is_zero
    first_byte toy bfx_outline_sdk.Io.Source.read
read_from_fresh_runs = refl

write_to-read_from_example :
    (taken : Bytes) × (r : Written salt toy perfect) × (taken ++ unread [] ≡ unread input)
    × (length taken ≡ 3)
    × (write_to new_toy 2 perfect 4 (reader_of net) nothing_sent 0 ≡ some r)
    × Drains salt toy perfect taken nothing_sent 0 r
unfolding toy
write_to-read_from_example =
    write_to-read_from salt toy perfect perfect new_toy 2 3 nothing_sent writer_after input [] net
      nothing_sent (λ c p h. absurd (cc h)) toy_key refl read_from_fresh_runs (omega arith)
      (omega arith, refl, (omega arith, refl, (omega arith, refl, tt))) refl
