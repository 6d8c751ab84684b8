-- ===== src/Tls/Buffer/Collect.antt =====
-- What clientHelloBuffer.Write does, on every input: it keeps the bytes up to the end of the first
-- record, or up to the end of a header that is not one of a Client Hello.
use bfx_outline_sdk.Prelude.{
  sym, ap₂, length-take, take-append_left, ap, length-append, take_all, ℕ, ◌+◌, ◌-◌, ◌≡◌, ◌<◌, refl,
  ◌≤◌, ◌⊎◌, inl, inr, none, some, [], ◌++◌, length, take, arith,
}
use native.Mathlib.Decide.{dec_lt}
use bfx_outline_sdk.Io.{Bytes, Fault, client_hello_received}
use bfx_outline_sdk.Io.Source.{Source, bytes_reader}
use bfx_outline_sdk.Tls.Header.{payload_len, validate}
use bfx_outline_sdk.Tls.Fragment.{IsInvalid, IsHello}
use bfx_outline_sdk.Tls.Buffer.{HelloBuffer, fill}
use bfx_outline_sdk.Tls.Buffer.Reads.{fill_short, fill_enough}

-- The buffer is waiting for more of the bytes `s`: for a header, or for the payload that the
-- header announces.
pub record Buffers (b : HelloBuffer) (s : Bytes) : Type 0 where
  pub bytes_are : b.bytes ≡ s
  pub no_error : b.validation_err ≡ none
  pub stage :
      (length s < 5)
      ⊎ ((5 ≤ length s)
          × (validate (take 5 s) ≡ none)
          × (b.capacity ≡ 10 + payload_len (take 5 s))
          × (length s < 5 + payload_len (take 5 s)))

-- What the error of Write says about the buffer, `s` being all that it has taken.
abbrev pub Verdict : HelloBuffer → Bytes → Fault → Type 0
Verdict b s none = Buffers b s
Verdict b s (some client_hello_received) = IsHello s
Verdict b s (some _) = IsInvalid s

pub record Collects (s p : Bytes) (b : HelloBuffer) (n : ℕ) (err : Fault) : Type 0 where
  pub count_le : n ≤ length p
  pub complete : err ≡ none → n ≡ length p
  pub bytes_are : b.bytes ≡ s ++ take n p
  pub verdict : Verdict b (s ++ take n p) err

-- The conditions under which a buffer that has its header waits on.
Buffers-append :
    (b : HelloBuffer) (s q : Bytes)
    → b.bytes ≡ s ++ q
    → b.validation_err ≡ none
    → 5 ≤ length s
    → validate (take 5 s) ≡ none
    → b.capacity ≡ 10 + payload_len (take 5 s)
    → length s + length q < 5 + payload_len (take 5 s)
    → Buffers b (s ++ q)
Buffers-append b s q bytes ok long valid cap fits = record {
  bytes_are = bytes;
  no_error = ok;
  stage =
      rw (take-append_left 5 s q long)
        (inr (omega (arith, length-append s q), valid, cap, omega (arith, length-append s q)));
}

abbrev room : HelloBuffer → ℕ
room b = b.capacity - 5 - length b.bytes

take_count : (k : ℕ) (q : Bytes) → k ≤ length q → take (length (take k q)) q ≡ take k q
take_count k q h = ap (λ n. take n q) (omega (arith, length-take k q))

IsHello-append :
    (s q : Bytes)
    → 5 ≤ length s
    → validate (take 5 s) ≡ none
    → length s + length q ≡ 5 + payload_len (take 5 s)
    → IsHello (s ++ q)
IsHello-append s q long valid e =
    rw (take-append_left 5 s q long) (valid, omega (arith, length-append s q))

-- The payload loop on the slice, with `n` bytes counted before it.
pub fill-Collects :
    (b : HelloBuffer) (n : ℕ) (s q : Bytes)
    → Buffers b s
    → 5 ≤ length s
    → (b' : HelloBuffer) × (m : ℕ) × (err : Fault) × (src : Source) × (fill b n (bytes_reader q)
        ≡ (b', n + m, err, src))
      × Collects s q b' m err
fill-Collects b n s q h long = elim h.stage [
  | inl short ↦ absurd (omega arith)
  | inr (_, valid, cap, fits) ↦ elim (dec_lt (length s + length q) (5 + payload_len (take 5 s))) [
    | yes less ↦ (
      record b { bytes = b.bytes ++ q },
      length q,
      none,
      [],
      fill_short b n q (omega (arith, ap length h.bytes_are)),
      waits valid cap less,
    )
    | no enough ↦
        let (src, e) =
          fill_enough b n q (omega (arith, ap length h.bytes_are))
            (omega (arith, ap length h.bytes_are)) in
        (
          record b { bytes = b.bytes ++ take (room b) q },
          length (take (room b) q),
          some client_hello_received,
          src,
          e,
          full valid (omega (arith, ap length h.bytes_are)) (omega (arith, ap length h.bytes_are)),
        )
  ]
]
  where
    waits :
        validate (take 5 s) ≡ none
        → b.capacity ≡ 10 + payload_len (take 5 s)
        → length s + length q < 5 + payload_len (take 5 s)
        → Collects s q (record b { bytes = b.bytes ++ q }) (length q) none
    waits valid cap less = record {
      count_le = omega arith;
      complete = λ e. refl;
      bytes_are = ap₂ ◌++◌ h.bytes_are (sym (take_all (length q) q (omega arith)));
      verdict =
          rw (take_all (length q) q (omega arith))
            (Buffers-append _ s q (ap (λ t. t ++ q) h.bytes_are) h.no_error long valid cap less);
    }

    full :
        validate (take 5 s) ≡ none
        → length s + room b ≡ 5 + payload_len (take 5 s)
        → room b ≤ length q
        → Collects s q
            (record b { bytes = b.bytes ++ take (room b) q })
            (length (take (room b) q))
            (some client_hello_received)
    full valid size le = record {
      count_le = omega (arith, length-take (room b) q);
      complete = λ e. cc;
      bytes_are = ap₂ ◌++◌ h.bytes_are (sym (take_count (room b) q le));
      verdict =
          rw (take_count (room b) q le)
            (IsHello-append s (take (room b) q) long valid (omega (arith, length-take (room b) q)));
    }
