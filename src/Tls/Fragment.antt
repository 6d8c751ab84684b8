-- ===== src/Tls/Fragment.antt =====
-- What the two writers of transport/tlsfrag promise, as a function of the bytes written so far:
-- nothing is sent before the first record is known to be complete or not to be a Client Hello.
pub mod Records
use bfx_outline_sdk.Prelude.{
  drop-length-append, take-length-append, ap₂, ◌<◌, ℕ, ◌+◌, ◌-◌, ◌≡◌, refl, ◌≤◌, Option, none, some,
  [], ◌++◌, ◌||◌, ltb, if◌then◌else◌, length, take, drop, arith, append_assoc, take-append_left,
  drop-append_left, length-append, ap, sym, ◌∙◌,
}
use bfx_outline_sdk.Prelude.Int.{ℤ, pos, pos_part, leb_ℤ}
use bfx_outline_sdk.Io.{Bytes, GoError}
use bfx_outline_sdk.Tls.Header.{payload_len, validate, put_uint16}

-- The bytes start with a header that Validate refuses.
abbrev pub IsInvalid : Bytes → Type 0
IsInvalid s = (5 ≤ length s) × ((e : GoError) × (validate (take 5 s) ≡ some e))

-- The bytes are one whole Client Hello record.
abbrev pub IsHello : Bytes → Type 0
IsHello s = (validate (take 5 s) ≡ none) × (length s ≡ 5 + payload_len (take 5 s))

-- A record as two records, cut before byte `k` of the payload.
unfoldable pub two_records : Bytes → ℕ → Bytes
two_records rec k =
    let payload = drop 5 rec in
    (put_uint16 (take 5 rec) 3 k ++ take k payload)
    ++ (put_uint16 (take 5 rec) 3 (length payload - k) ++ drop k payload)

-- `frag` chooses the cut; a choice that is no inner point leaves the record as it is.
unfoldable pub split_at : (Bytes → ℤ) → Bytes → Bytes
split_at frag rec =
    let k = frag (drop 5 rec) in
    if leb_ℤ k (pos 0) || leb_ℤ (pos (length (drop 5 rec))) k
    then rec
    else two_records rec (pos_part k)

module _ (frag : Bytes → ℤ) where
  unfoldable pub fragment : Bytes → Bytes
  fragment s =
      let size = 5 + payload_len (take 5 s) in
      let hello : Bytes =
        if ltb (length s) size then [] else split_at frag (take size s) ++ drop size s in
      let decided : Bytes = elim (validate (take 5 s)) [ some e ↦ s | none ↦ hello ] in
      if ltb (length s) 5 then [] else decided

  pub fragment_short : (s : Bytes) → length s < 5 → fragment s ≡ []
  unfolding fragment
  fragment_short s h = ground arith

  pub fragment_partial :
      (s : Bytes)
      → validate (take 5 s) ≡ none
      → length s < 5 + payload_len (take 5 s)
      → fragment s ≡ []
  unfolding fragment
  fragment_partial s v h = ground arith

  invalid_is :
      (s : Bytes) {e : GoError} → 5 ≤ length s → validate (take 5 s) ≡ some e → fragment s ≡ s
  unfolding fragment
  invalid_is s long v = ground arith

  hello_is :
      (s : Bytes) (n : ℕ)
      → validate (take 5 s) ≡ none
      → n ≡ 5 + payload_len (take 5 s)
      → n ≤ length s
      → fragment s ≡ split_at frag (take n s) ++ drop n s
  unfolding fragment
  hello_is s n v e long = ground arith

  -- A stream that is no Client Hello goes through as it is, from the header on.
  pub fragment-IsInvalid : (s t : Bytes) → IsInvalid s → fragment (s ++ t) ≡ s ++ t
  fragment-IsInvalid s t (long, (e, v)) =
      invalid_is (s ++ t) (omega (arith, length-append s t))
        (ap validate (take-append_left 5 s t long) ∙ v)

  -- Behind a whole Client Hello the stream goes through as it is.
  pub fragment-IsHello : (s t : Bytes) → IsHello s → fragment (s ++ t) ≡ split_at frag s ++ t
  fragment-IsHello s t (v, len) =
      hello_is (s ++ t) (length s) (ap validate same ∙ v)
        (len ∙ ap (λ h. 5 + payload_len h) (sym same)) (omega (arith, length-append s t))
      ∙ ap₂ (λ a b. split_at frag a ++ b) (take-length-append s t) (drop-length-append s t)
    where
      same : take 5 (s ++ t) ≡ take 5 s
      same = take-append_left 5 s t (omega arith)
