-- ===== src/Shadowsocks/Reader/Upcoming.antt =====
-- chunkReader on a connection that carries given chunks: init opens it with the salt, and ReadChunk
-- takes them one at a time.
use bfx_outline_sdk.Prelude.{
  length-replicate, ℕ, ◌≡◌, ◌++◌, none, some, [], ◌∷◌, length, refl, sym, ap, ◌∙◌, List, ◌≤◌, ◌<◌,
  replicate, inr, inl, ◌⊎◌,
}
use bfx_outline_sdk.Io.{Bytes, Fallible, eof}
use bfx_outline_sdk.Io.Source.{read_full, unread}
use bfx_outline_sdk.Io.Source.Full.{Smooth, read_full-Gets}
use bfx_outline_sdk.Shadowsocks.Nonce.{increment, length-increment}
use bfx_outline_sdk.Shadowsocks.Cipher.{Aead}
use bfx_outline_sdk.Shadowsocks.Writer.Sends.{ChunkSize}
use bfx_outline_sdk.Shadowsocks.Reader.{
  keyed, ChunkReader, read_chunk, read_opened, init, init_salt, init_unless,
}
use bfx_outline_sdk.Shadowsocks.Reader.Chunks.{
  At, frames, read_opened-Yields, read_opened-end, read_full-end,
}

-- The salt gives the key of the session, and the tags fit in the buffer.
pub record SessionKey (new_aead : Bytes → Fallible Aead) (salt_size : ℕ) (salt : Bytes)
    (aead : Aead) : Type 0 where
  pub keyed_by : new_aead salt ≡ inr aead
  pub length-salt : length salt ≡ salt_size
  pub some_salt : 0 < salt_size
  pub tag_fits : aead.overhead ≤ 16

module _ (salt : Bytes) (aead : Aead) where
  -- What a connection carries for the chunks.
  abbrev pub stream : List Bytes → Bytes
  stream [] = []
  stream (p ∷ ps) = salt ++ frames aead (replicate aead.nonce_size 0) (p ∷ ps)

  pub record Unstarted (ps : List Bytes) (s : ChunkReader) : Type 0 where
    pub unopened : s.aead ≡ none
    pub bytes_left : unread s.reader ≡ stream ps
    pub smooth : Smooth s.reader

  pub record Started (ps : List Bytes) (s : ChunkReader) : Type 0 where
    pub counter : Bytes
    pub length-counter : length counter ≡ aead.nonce_size
    pub at : At aead counter (frames aead counter ps) s

  -- The chunks `ps` are still to be read.
  abbrev pub Upcoming : List Bytes → ChunkReader → Type 0
  Upcoming ps s = Unstarted ps s ⊎ Started ps s

  module _ (new_aead : Bytes → Fallible Aead) (salt_size : ℕ) where
    init-Started :
        (p : Bytes) (ps : List Bytes) (s : ChunkReader)
        → SessionKey new_aead salt_size salt aead
        → Upcoming (p ∷ ps) s
        → (s' : ChunkReader) × (init new_aead salt_size s ≡ (s', inr aead)) × Started (p ∷ ps) s'
    unfolding init init_salt
    init-Started p ps s k (inr h) = (s, ap (init_unless new_aead salt_size s) h.at.opened, h)
    init-Started p ps s k (inl h) =
        let zeros : Bytes = replicate aead.nonce_size 0 in
        let got = read_full-Gets salt (frames aead zeros (p ∷ ps)) s.reader h.smooth h.bytes_left in
        let s' : ChunkReader = record { reader = got.0; aead = some aead; counter = zeros } in
        (
          s',
          ap (init_unless new_aead salt_size s) h.unopened
              ∙ ap (λ n. init_salt new_aead salt_size s (read_full n s.reader)) (sym k.length-salt)
              ∙ ap (init_salt new_aead salt_size s) got.1
              ∙ ap (keyed new_aead salt_size (record s { reader = got.0 })) k.keyed_by,
          record {
            counter = zeros;
            length-counter = length-replicate aead.nonce_size 0;
            at = record { opened = refl; at_counter = refl; bytes_left = got.2; smooth = got.3 };
          },
        )

    pub read_chunk-next :
        (p : Bytes) (ps : List Bytes) (s : ChunkReader)
        → SessionKey new_aead salt_size salt aead
        → ChunkSize p
        → Upcoming (p ∷ ps) s
        → (s' : ChunkReader) × (read_chunk new_aead salt_size s ≡ (s', inr p)) × Upcoming ps s'
    unfolding read_chunk
    read_chunk-next p ps s k size h =
        let (s1, e, st) = init-Started p ps s k h in
        let y =
          read_opened-Yields aead s1 st.counter p
            (frames aead (increment (increment st.counter)) ps) st.at st.length-counter size.1
            k.tag_fits in
        (
          y.0,
          ap read_opened e ∙ y.1,
          inr (record {
            counter = increment (increment st.counter);
            length-counter =
                length-increment (increment st.counter)
                ∙ length-increment st.counter
                ∙ st.length-counter;
            at = y.2;
          }),
        )

    pub read_chunk-last :
        (s : ChunkReader)
        → SessionKey new_aead salt_size salt aead
        → Upcoming [] s
        → (s' : ChunkReader) × (read_chunk new_aead salt_size s ≡ (s', inl eof)) × Upcoming [] s'
    unfolding read_chunk init init_salt
    read_chunk-last s k (inr h) = (
      record s { reader = [] },
      ap (λ a. read_opened (init_unless new_aead salt_size s a)) h.at.opened
          ∙ read_opened-end aead s h.counter h.at,
      inr (record {
        counter = h.counter;
        length-counter = h.length-counter;
        at = record {
          opened = h.at.opened;
          at_counter = h.at.at_counter;
          bytes_left = refl;
          smooth = tt;
        };
      }),
    )
    read_chunk-last s k (inl h) = (
      record s { reader = [] },
      ap (λ a. read_opened (init_unless new_aead salt_size s a)) h.unopened
          ∙ ap (λ r. read_opened (init_salt new_aead salt_size s r))
              (read_full-end salt_size s.reader k.some_salt h.smooth h.bytes_left),
      inl (record { unopened = h.unopened; bytes_left = refl; smooth = tt }),
    )
