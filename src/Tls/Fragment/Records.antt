-- ===== src/Tls/Fragment/Records.antt =====
-- The two records that the specification makes of a Client Hello.
use bfx_outline_sdk.Prelude.{
  subst, ℕ, ◌+◌, ◌-◌, ◌≡◌, ◌≤◌, ◌<◌, refl, none, [], ◌∷◌, ◌++◌, length, take, drop, arith,
  take-append-drop, length-take, length-drop,
}
use bfx_outline_sdk.Io.{Bytes}
use bfx_outline_sdk.Tls.Header.{payload_len, validate, put_uint16}
use bfx_outline_sdk.Tls.Header.Laws.{validate_range}
use bfx_outline_sdk.Tls.Fragment.{IsHello, two_records}

-- A header keeps its type and version when its length is set.
validate_set :
    (a b c d e n : ℕ)
    → validate (a ∷ b ∷ c ∷ d ∷ e ∷ []) ≡ none
    → 0 < n
    → n ≤ 16384
    → validate (put_uint16 (a ∷ b ∷ c ∷ d ∷ e ∷ []) 3 n) ≡ none
unfolding validate payload_len
validate_set a b c d e n v lo hi = ground arith

-- A record with its length set to that of its payload.
IsHello-set :
    (a b c d e : ℕ) (p : Bytes)
    → validate (a ∷ b ∷ c ∷ d ∷ e ∷ []) ≡ none
    → 0 < length p
    → length p ≤ 16384
    → IsHello (put_uint16 (a ∷ b ∷ c ∷ d ∷ e ∷ []) 3 (length p) ++ p)
unfolding payload_len
IsHello-set a b c d e p v lo hi = (validate_set a b c d e (length p) v lo hi, omega arith)

-- The two records of a Client Hello that is cut inside its payload: each is a whole record of its
-- own that Validate accepts, and their payloads, one after the other, are the payload.
pub record Splits (rec : Bytes) (k : ℕ) : Type 0 where
  pub first : Bytes
  pub second : Bytes
  pub joined : two_records rec k ≡ first ++ second
  pub first_hello : IsHello first
  pub second_hello : IsHello second
  pub first_length : length first ≡ 5 + k
  pub payloads : drop 5 first ++ drop 5 second ≡ drop 5 rec

-- A cut strictly inside the payload of a whole Client Hello gives two whole records that Validate
-- accepts, the first with k bytes of payload, and the payloads join to the one of the Client Hello.
pub two_records-Splits :
    (rec : Bytes) (k : ℕ) → IsHello rec → 0 < k → k + 5 < length rec → Splits rec k
unfolding two_records
two_records-Splits [] k h lo hi = absurd (omega arith)
two_records-Splits (_ ∷ []) k h lo hi = absurd (omega arith)
two_records-Splits (_ ∷ _ ∷ []) k h lo hi = absurd (omega arith)
two_records-Splits (_ ∷ _ ∷ _ ∷ []) k h lo hi = absurd (omega arith)
two_records-Splits (_ ∷ _ ∷ _ ∷ _ ∷ []) k h lo hi = absurd (omega arith)
two_records-Splits (a ∷ b ∷ c ∷ d ∷ e ∷ p) k (v, len) lo hi = record {
  first = header k ++ take k p;
  second = header (length p - k) ++ drop k p;
  joined = refl;
  first_hello =
      subst (λ n. IsHello (header n ++ take k p)) head
        (IsHello-set a b c d e (take k p) v (omega (arith, head)) (omega (arith, head, most)));
  second_hello =
      subst (λ n. IsHello (header n ++ drop k p)) tail
        (IsHello-set a b c d e (drop k p) v (omega (arith, tail)) (omega (arith, tail, most)));
  first_length = omega (arith, head);
  payloads = take-append-drop k p;
}
  where
    header : ℕ → Bytes
    header n = put_uint16 (a ∷ b ∷ c ∷ d ∷ e ∷ []) 3 n

    head : length (take k p) ≡ k
    head = omega (arith, length-take k p)

    tail : length (drop k p) ≡ length p - k
    tail = length-drop k p

    most : length p ≤ 16384
    most = omega (arith, (validate_range (a ∷ b ∷ c ∷ d ∷ e ∷ []) v).1)
