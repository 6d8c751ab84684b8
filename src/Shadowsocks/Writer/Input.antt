-- ===== src/Shadowsocks/Writer/Input.antt =====
-- ReadFrom of the Shadowsocks writer as a whole, with the read that may overlap a Flush of another
-- thread.
use bfx_outline_sdk.Prelude.{
  ap, take_all, subst, not, append-nil, ◌-◌, if◌then◌else◌, ◌+◌, Bool, length, ℕ, refl, ◌≡◌, arith,
  [], none, ◌++◌, ◌≤◌, true, false,
}
use bfx_outline_sdk.Io.{
  reply_code, nested, joined, unexpected_eof, short_write, short_buffer, no_progress,
  client_hello_received, external, wrapped, message, GoError, Bytes, Fault, Writer, eof, is_eof,
}
use bfx_outline_sdk.Io.Source.{Source, read, unread}
use bfx_outline_sdk.Io.Source.Reads.{read-unread, read-le}
use bfx_outline_sdk.Shadowsocks.Cipher.{Aead}
use bfx_outline_sdk.Shadowsocks.Writer.{
  Session, payload_size_mask, flush, flush_lazy, enqueue, first_read,
}
use bfx_outline_sdk.Shadowsocks.Writer.Sends.{
  Sends, Sends-then, flush-Sends, flush-empties, Sends-nil, enqueue-Sends,
}
use bfx_outline_sdk.Shadowsocks.Writer.Lazy.{enqueue-le, enqueued, Sends-flag}
use bfx_outline_sdk.Shadowsocks.Writer.Transfer.{
  NoEof, NoneOrEof, or_flush-NoneOrEof, flush-not_eof,
}

-- Plaintext waits only while a concurrent Flush is allowed.
abbrev pub Ready : {w : Writer} → Session w → Type 0
Ready s = (length s.pending ≤ payload_size_mask) × (s.need_flush ≡ false → s.pending ≡ [])

pub eof-is_eof : (e : GoError) → is_eof e ≡ true → e ≡ eof
eof-is_eof eof h = refl
eof-is_eof unexpected_eof h = absurd (cc h)
eof-is_eof short_write h = absurd (cc h)
eof-is_eof short_buffer h = absurd (cc h)
eof-is_eof no_progress h = absurd (cc h)
eof-is_eof client_hello_received h = absurd (cc h)
eof-is_eof (message m) h = absurd (cc h)
eof-is_eof (wrapped m e) h = absurd (cc h)
eof-is_eof (external n) h = absurd (cc h)
eof-is_eof (reply_code n) h = absurd (cc h)
eof-is_eof (nested d e) h = absurd (cc h)
eof-is_eof (joined d e) h = absurd (cc h)

module _ (w : Writer) (salt : Bytes) (aead : Aead) where
  -- From `s` to `s'` the `n` bytes up to `src'` are read, and if `ok` they are sent.
  pub record Reads (s : Session w) (src : Source) (s' : Session w) (n : ℕ) (src' : Source)
      (Ok : Type 0) : Type 0 where
    pub taken : Bytes
    pub taken-unread : taken ++ unread src' ≡ unread src
    pub count : length taken ≡ n
    pub empties : s'.pending ≡ []
    pub complete : Ok → Sends salt aead s s' taken

  flush_if-Sends :
      (b : Bool) (s : Session w)
      → length s.pending ≤ payload_size_mask
      → let r : Session w × Fault = if not b then (s, none) else flush w salt aead s in
        r.1 ≡ none → Sends salt aead s r.0 []
  flush_if-Sends true s h e = flush-Sends salt aead s h e
  flush_if-Sends false s h e = Sends-nil salt aead s

  flush_if-le :
      (b : Bool) (s : Session w)
      → let r : Session w × Fault = if not b then (s, none) else flush w salt aead s in
        length r.0.pending ≤ length s.pending
  flush_if-le true s = omega (arith, ap length (flush-empties salt aead s))
  flush_if-le false s = omega arith

  pub flush_lazy-Sends :
      (s : Session w)
      → length s.pending ≤ payload_size_mask
      → (flush_lazy w salt aead s).1 ≡ none
      → Sends salt aead s (flush_lazy w salt aead s).0 []
  unfolding flush_lazy
  flush_lazy-Sends s h e = flush_if-Sends s.need_flush s h e

  flush_lazy-le : (s : Session w) → length (flush_lazy w salt aead s).0.pending ≤ length s.pending
  unfolding flush_lazy
  flush_lazy-le s = flush_if-le s.need_flush s

  -- What another thread does between the two locks.
  abbrev between : Bool → Session w → Session w
  between meanwhile s = if meanwhile then (flush_lazy w salt aead s).0 else s

  between-Sends :
      (meanwhile : Bool) (s : Session w)
      → length s.pending ≤ payload_size_mask
      → (meanwhile ≡ true → (flush_lazy w salt aead s).1 ≡ none)
      → Sends salt aead s (between meanwhile s) []
  between-Sends true s h k = flush_lazy-Sends s h (k refl)
  between-Sends false s h k = Sends-nil salt aead s

  between-le :
      (meanwhile : Bool) (s : Session w) → length (between meanwhile s).pending ≤ length s.pending
  between-le true s = flush_lazy-le s
  between-le false s = omega arith

  -- What fits is enqueued whole.
  enqueue-fits :
      (s : Session w) (c : Bytes)
      → length c + length s.pending ≤ payload_size_mask
      → Sends salt aead s (enqueue w salt aead s c).0 c
        × (length (enqueue w salt aead s c).0.pending ≤ payload_size_mask)
  enqueue-fits s c h = (
    subst (Sends salt aead s (enqueue w salt aead s c).0)
        (take_all (enqueue w salt aead s c).1 c (omega (arith, enqueued w salt aead s c)))
        (enqueue-Sends salt aead s c),
    enqueue-le w salt aead s c (omega arith),
  )

  Sends-to_end :
      {s s' : Session w} {p : Bytes} → Sends salt aead s s' (p ++ []) → Sends salt aead s s' p
  Sends-to_end {s} {s'} {p} = subst (Sends salt aead s s') (append-nil p)

  pub first_read-Reads :
      NoEof w
      → (meanwhile : Bool) (s : Session w) (src : Source) → length s.pending ≤ payload_size_mask
      → (meanwhile ≡ true → (flush_lazy w salt aead s).1 ≡ none)
      → let (s', n, err, src') = first_read w salt aead meanwhile s src in
        Reads s src s' n src' (NoneOrEof err)
  unfolding first_read
  first_read-Reads honest meanwhile s src h k =
      let size = payload_size_mask - length s.pending in
      let c = (read size src).0 in
      let s1 = between meanwhile s in
      let s2 = (enqueue w salt aead s1 c).0 in
      let (sends, le) =
        enqueue-fits s1 c (omega (arith, read-le size src, between-le meanwhile s)) in
      record {
        taken = c;
        taken-unread = read-unread size src;
        count = refl;
        empties = flush-empties salt aead s2;
        complete = λ z.
            let ok =
              or_flush-NoneOrEof w salt aead (read size src).1 (flush w salt aead s2).1
                (flush-not_eof w salt aead honest s2) z in
            Sends-flag w salt aead false (
              Sends-to_end (
                Sends-then salt aead (between-Sends meanwhile s h k)
                  (Sends-then salt aead sends (flush-Sends salt aead s2 le ok))));
      }
