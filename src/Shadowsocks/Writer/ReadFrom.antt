-- ===== src/Shadowsocks/Writer/ReadFrom.antt =====
-- ReadFrom of the Shadowsocks writer as a whole: it ends, and sends what it read.
use bfx_outline_sdk.Prelude.{
  ap₂, length-append, ◌∙◌, Bool-cases, append_assoc, ap, ◌-◌, ◌+◌, if◌then◌else◌, length, ℕ, Bool,
  refl, ◌≡◌, arith, [], some, none, ◌++◌, suc, inl, inr, ◌≤◌, true, false,
}
use bfx_outline_sdk.Io.{wrapped, GoError, Bytes, Fault, Writer, eof, is_eof}
use bfx_outline_sdk.Io.Source.{Source, unread}
use bfx_outline_sdk.Io.Source.Reads.{remaining, remaining-read_le}
use bfx_outline_sdk.Shadowsocks.Cipher.{Aead}
use bfx_outline_sdk.Shadowsocks.Writer.{
  Session, payload_size_mask, flush_lazy, first_read, read_from, read_from_result,
}
use bfx_outline_sdk.Shadowsocks.Writer.Sends.{Sends-then, Sends-nil}
use bfx_outline_sdk.Shadowsocks.Writer.Transfer.{NoEof, NoneOrEof, Transfers, transfer-Transfers}
use bfx_outline_sdk.Shadowsocks.Writer.Input.{Ready, Reads, first_read-Reads, eof-is_eof}

module _ (w : Writer) (salt : Bytes) (aead : Aead) where
  -- The first read, if there is one.
  first-Reads :
      NoEof w
      → (need : Bool) (meanwhile : Bool) (s : Session w) (src : Source)
      → length s.pending ≤ payload_size_mask
      → (need ≡ false → s.pending ≡ [])
      → (meanwhile ≡ true → (flush_lazy w salt aead s).1 ≡ none)
      → let r : Session w × ℕ × Fault × Source =
          if need then first_read w salt aead meanwhile s src else (s, 0, none, src) in
        Reads w salt aead s src r.0 r.1 r.3 (NoneOrEof r.2) × (remaining r.3 ≤ remaining src)
  unfolding first_read
  first-Reads honest true meanwhile s src le idle k = (
    first_read-Reads w salt aead honest meanwhile s src le k,
    remaining-read_le (payload_size_mask - length s.pending) src,
  )
  first-Reads honest false meanwhile s src le idle k = (
    record {
      taken = [];
      taken-unread = refl;
      count = refl;
      empties = idle refl;
      complete = λ z. Sends-nil salt aead s;
    },
    omega arith,
  )

  pub no_error :
      (e : GoError)
      → (if is_eof e then none else some (wrapped "failed to read payload" e)) ≡ none
      → e ≡ eof
  no_error e h = elim (Bool-cases (is_eof e)) [
    | inl t ↦ eof-is_eof e t
    | inr f ↦ absurd (cc (h, f))
  ]

  Reads-then :
      (s s1 s' : Session w) (src src1 src' : Source) (n1 n : ℕ) (err : Fault) (e : GoError)
      → Reads w salt aead s src s1 n1 src1 (NoneOrEof err)
      → Transfers w salt aead s1 err src1 s' n e src'
      → Reads w salt aead s src s'
          (n1 + n)
          src'
          ((if is_eof e then none else some (wrapped "failed to read payload" e)) ≡ none)
  Reads-then s s1 s' src src1 src' n1 n err e h t = record {
    taken = h.taken ++ t.taken;
    taken-unread =
        append_assoc h.taken t.taken (unread src')
        ∙ ap (◌++◌ h.taken) t.taken-unread
        ∙ h.taken-unread;
    count = length-append h.taken t.taken ∙ ap₂ ◌+◌ h.count t.count;
    empties = t.empties;
    complete = λ z.
        let (ok, sent) = t.complete (no_error e z) in Sends-then salt aead (h.complete ok) sent;
  }

  -- ReadFrom from any state, whatever another thread's Flush does in between.
  pub read_from-Reads :
      NoEof w
      → (meanwhile : Bool) (s : Session w) (src : Source) → Ready s
      → (meanwhile ≡ true → (flush_lazy w salt aead s).1 ≡ none)
      → (s' : Session w) × (n : ℕ) × (err : Fault) × (src' : Source) × (read_from w salt aead
            meanwhile s src
          ≡ some (s', n, err, src'))
        × Reads w salt aead s src s' n src' (err ≡ none)
  unfolding read_from
  read_from-Reads honest meanwhile s src (le, idle) k =
      let (h, fuel) = first-Reads honest s.need_flush meanwhile s src le idle k in
      let r : Session w × ℕ × Fault × Source =
        if s.need_flush then first_read w salt aead meanwhile s src else (s, 0, none, src) in
      let (s', n, e, src', eq, t) =
        transfer-Transfers w salt aead honest (suc (remaining src)) r.0 r.1 r.2 r.3 h.empties
          (λ z. omega (arith, fuel)) in
      (
        s',
        r.1 + n,
        (if is_eof e then none else some (wrapped "failed to read payload" e)),
        src',
        ap (λ o. elim o [ none ↦ none | some x ↦ some (read_from_result w salt aead x) ]) eq,
        Reads-then s r.0 s' src r.3 src' r.1 n r.2 e h t,
      )
