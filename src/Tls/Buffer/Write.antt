-- ===== src/Tls/Buffer/Write.antt =====
-- Write of clientHelloBuffer, from any state in which it waits for more bytes.
use native.Mathlib.Decide.{dec_lt}
use bfx_outline_sdk.Prelude.{
  length-take, length-append, ap₂, append-nil, subst, length-drop, String, sym, take-append-take,
  ap, ◌∙◌, append_assoc, take_all, ℕ, ◌+◌, ◌-◌, ◌*◌, ◌%◌, ◌^◌, ◌≡◌, ◌<◌, refl, ◌≤◌, inl, inr, none,
  some, [], ◌++◌, length, take, drop, arith,
}
use bfx_outline_sdk.Io.{Bytes, GoError, Fault, message}
use bfx_outline_sdk.Io.Source.{Source, read_full, bytes_reader}
use bfx_outline_sdk.Tls.Header.{payload_len, validate, new_header}
use bfx_outline_sdk.Tls.Header.Laws.{validate-IsAnswer, validate_range}
use bfx_outline_sdk.Tls.Buffer.{
  without_short, HelloBuffer, fill, read_payload, check_header, read_from, whole_write, write,
}
use bfx_outline_sdk.Tls.Buffer.Reads.{read_full_short, read_full_enough}
use bfx_outline_sdk.Tls.Buffer.Collect.{Buffers, Verdict, Collects, fill-Collects}

-- The outcome of a call that has counted `n` bytes before the slice `q`.
abbrev Reads : HelloBuffer × ℕ × Fault × Source → ℕ → Bytes → Bytes → Type 0
Reads r n s q =
    (b : HelloBuffer) × (m : ℕ) × (err : Fault) × (src : Source) × (r ≡ (b, n + m, err, src))
    × Collects s q b m err

read_payload_ok :
    (b : HelloBuffer) (n : ℕ) (src : Source)
    → b.validation_err ≡ none
    → read_payload b n src ≡ fill b n src
unfolding read_payload
read_payload_ok b n src ok = ground arith

read_payload-Reads :
    (b : HelloBuffer) (n : ℕ) (s q : Bytes)
    → Buffers b s
    → 5 ≤ length s
    → Reads (read_payload b n (bytes_reader q)) n s q
read_payload-Reads b n s q h long =
    rw (read_payload_ok b n (bytes_reader q) h.no_error) (fill-Collects b n s q h long)

check_header_valid :
    (b : HelloBuffer) (n : ℕ) (src : Source)
    → length b.bytes ≡ 5
    → validate b.bytes ≡ none
    → payload_len b.bytes ≤ 16384
    → check_header b n src ≡ read_payload (record b { capacity = 10 + payload_len b.bytes }) n src
unfolding check_header new_header
check_header_valid b n src len valid le =
    ground (arith, ap (λ (k : ℕ). read_payload (record b { capacity = k }) n src) cap)
  where
    cap : (5 * 2 + payload_len b.bytes) % 2 ^ 16 ≡ 10 + payload_len b.bytes
    cap = omega arith

check_header_bad :
    (b : HelloBuffer) (n : ℕ) (src : Source) {e : GoError}
    → length b.bytes ≡ 5
    → validate b.bytes ≡ some e
    → check_header b n src ≡ (record b { validation_err = some e }, n, some e, src)
unfolding check_header new_header
check_header_bad b n src len bad = ground arith

-- At the end of the header.
check_header-Reads :
    (b : HelloBuffer) (n : ℕ) (q : Bytes)
    → b.validation_err ≡ none
    → length b.bytes ≡ 5
    → Reads (check_header b n (bytes_reader q)) n b.bytes q
check_header-Reads b n q ok len = elim (validate-IsAnswer b.bytes) [
  | inl valid ↦
      rw (check_header_valid b n (bytes_reader q) len valid (validate_range b.bytes valid).1)
        (read_payload-Reads _ n b.bytes q (waits valid) (omega arith))
  | inr (m, bad) ↦ (
    record b { validation_err = some (message m) },
    0,
    some (message m),
    bytes_reader q,
    check_header_bad b n (bytes_reader q) len bad
        ∙ ap
            (λ (k : ℕ).
              (record b { validation_err = some (message m) }, k, some (message m), bytes_reader q))
            (omega arith),
    refused m bad,
  )
]
  where
    all : take 5 b.bytes ≡ b.bytes
    all = take_all 5 b.bytes (omega arith)

    waits :
        validate b.bytes ≡ none → Buffers (record b { capacity = 10 + payload_len b.bytes }) b.bytes
    waits valid = record {
      bytes_are = refl;
      no_error = ok;
      stage = inr (
        omega arith,
        ap validate all ∙ valid,
        ap (λ h. 10 + payload_len h) (sym all),
        omega (arith, (validate_range b.bytes valid).0, ap payload_len all),
      );
    }

    refused :
        (m : String)
        → validate b.bytes ≡ some (message m)
        → Collects b.bytes q (record b { validation_err = some (message m) }) 0 (some (message m))
    refused m bad = record {
      count_le = omega arith;
      complete = λ e. cc;
      bytes_are = sym (append-nil b.bytes);
      verdict = rw (append-nil b.bytes) (omega arith, (message m, ap validate all ∙ bad));
    }

-- The first `k` bytes of the slice went into the header.
Collects-then :
    (s p : Bytes) (k m : ℕ) (b : HelloBuffer) (err : Fault)
    → k ≤ length p
    → Collects (s ++ take k p) (drop k p) b m err
    → Collects s p b (k + m) err
Collects-then s p k m b err le h = record {
  count_le = omega (arith, h.count_le, length-drop k p);
  complete = λ e. omega (arith, h.complete e, length-drop k p);
  bytes_are = h.bytes_are ∙ joined;
  verdict = subst (λ t. Verdict b t err) joined h.verdict;
}
  where
    joined : (s ++ take k p) ++ take m (drop k p) ≡ s ++ take (k + m) p
    joined = append_assoc s (take k p) (take m (drop k p)) ∙ ap (◌++◌ s) (take-append-take k m p)

read_from_short :
    (b : HelloBuffer) (src : Source) {got : Bytes} {e : GoError} {rest : Source}
    → length b.bytes < 5
    → read_full (5 - length b.bytes) src ≡ (got, some e, rest)
    → without_short (some e) ≡ none
    → read_from b src ≡ (record b { bytes = b.bytes ++ got }, length got, none, rest)
unfolding read_from
read_from_short b src short r w = ground arith

read_from_header :
    (b : HelloBuffer) (src : Source) {got : Bytes} {rest : Source}
    → length b.bytes < 5
    → read_full (5 - length b.bytes) src ≡ (got, none, rest)
    → read_from b src ≡ check_header (record b { bytes = b.bytes ++ got }) (length got) rest
unfolding read_from
read_from_header b src short r = ground arith

read_from_payload :
    (b : HelloBuffer) (src : Source) → 5 ≤ length b.bytes → read_from b src ≡ read_payload b 0 src
unfolding read_from
read_from_payload b src long = ground arith

-- A slice that leaves the header incomplete.
header_waits :
    (b : HelloBuffer) (s p : Bytes)
    → Buffers b s
    → length s + length p < 5
    → Collects s p (record b { bytes = b.bytes ++ p }) (length p) none
header_waits b s p h short = record {
  count_le = omega arith;
  complete = λ e. refl;
  bytes_are = ap₂ ◌++◌ h.bytes_are (sym whole);
  verdict = rw whole (record {
    bytes_are = ap (λ t. t ++ p) h.bytes_are;
    no_error = h.no_error;
    stage = inl (omega (arith, length-append s p));
  });
}
  where
    whole : take (length p) p ≡ p
    whole = take_all (length p) p (omega arith)

read_from-Reads :
    (b : HelloBuffer) (s p : Bytes) → Buffers b s → Reads (read_from b (bytes_reader p)) 0 s p
read_from-Reads b s p h = elim (dec_lt (length s) 5) [
  | no long ↦
      rw (read_from_payload b (bytes_reader p) (omega (arith, ap length h.bytes_are)))
        (read_payload-Reads b 0 s p h (omega arith))
  | yes short ↦ elim (dec_lt (length s + length p) 5) [
    | yes few ↦
        let (e, r, w) =
          read_full_short (5 - length b.bytes) p (omega (arith, ap length h.bytes_are)) in
        (
          record b { bytes = b.bytes ++ p },
          length p,
          none,
          [],
          read_from_short b (bytes_reader p) (omega (arith, ap length h.bytes_are)) r w
              ∙ ap (λ (k : ℕ). (record b { bytes = b.bytes ++ p }, k, none, [])) (omega arith),
          header_waits b s p h few,
        )
    | no enough ↦ complete short (omega arith)
  ]
]
  where
    need : ℕ
    need = 5 - length b.bytes

    complete : length s < 5 → 5 ≤ length s + length p → Reads (read_from b (bytes_reader p)) 0 s p
    complete short enough =
        let le : need ≤ length p = omega (arith, ap length h.bytes_are) in
        let (b', m, err, src, e, c) =
          check_header-Reads (record b { bytes = b.bytes ++ take need p }) (length (take need p))
            (drop need p) h.no_error
            (omega (
              arith,
              length-append b.bytes (take need p),
              length-take need p,
              ap length h.bytes_are,
            )) in
        (
          b',
          need + m,
          err,
          src,
          read_from_header b (bytes_reader p) (omega (arith, ap length h.bytes_are))
                (read_full_enough need p (omega (arith, ap length h.bytes_are)) le)
              ∙ e
              ∙ ap (λ (k : ℕ). (b', k, err, src)) (omega (arith, length-take need p)),
          Collects-then s p need m b' err le
              (subst (λ t. Collects (t ++ take need p) (drop need p) b' m err) h.bytes_are c),
        )

whole_write_lem : (n len : ℕ) (err : Fault) → (err ≡ none → n ≡ len) → whole_write n len err ≡ err
whole_write_lem n len none h = ground (arith, h refl)
whole_write_lem n len (some e) h = refl

-- Write of clientHelloBuffer, from any state in which it waits: what the number and the error that
-- it returns say about the bytes that it has taken.
pub write-Collects :
    (b : HelloBuffer) (s p : Bytes) → Buffers b s → let r = write b p in Collects s p r.0 r.1 r.2
unfolding write
write-Collects b s p h =
    let (b', m, err, src, e, c) = read_from-Reads b s p h in
    rw e (
      rw (whole_write_lem (0 + m) (length p) err (λ x. omega (arith, c.complete x)))
        (subst (λ k. Collects s p b' k err) (omega arith) c))
