-- ===== src/Io.antt =====
-- What the program uses of Go's io package: errors as values, byte slices as lists, and writers.
-- The writer that a component wraps (a connection) is not code of the repository. It is a
-- parameter: any state and any answers that keep to the documented contract of io.Writer.
pub mod Delivery
pub mod Source
use bfx_outline_sdk.Prelude.{
  refl, ◌⊎◌, inl, inr, arith, ℕ, ◌≤◌, ◌≡◌, String, Option, none, some, List, [], ◌∷◌, ◌++◌, Bool,
  true, false, length, take,
}

abbrev pub Bytes : Type 0
Bytes = List ℕ

-- `client_hello_received` is errTLSClientHelloFullyReceived of tlsfrag, which the code tests for,
-- `message` is errors.New, `wrapped` is fmt.Errorf with %w, `external` an error of a component that
-- is not modelled, `reply_code` a ReplyCode of socks5, `nested` the nestedError of dns (what it is, and
-- what it wraps), and `joined` errors.Join. The others are the sentinel values of package io. Values that
-- a text shows are left out of it.
pub data GoError : Type 0 where
  eof unexpected_eof short_write short_buffer no_progress client_hello_received : GoError
  message : String → GoError
  wrapped : String → GoError → GoError
  external : ℕ → GoError
  reply_code : ℕ → GoError
  nested : GoError → GoError → GoError
  joined : GoError → GoError → GoError

abbrev pub Fault : Type 0
Fault = Option GoError

-- errors.Join with what was joined so far; the join of one error is
-- that error, up to its type.
abbrev pub join : Fault → GoError → GoError
join none e = e
join (some d) e = joined d e

abbrev pub is_eof : GoError → Bool
is_eof eof = true
is_eof _ = false

abbrev pub is_some {ℓ} : {A : Type ℓ} → Option A → Bool
is_some none = false
is_some (some _) = true

-- A result of Go: a value, or an error.
abbrev pub Fallible {ℓ} : Type ℓ → Type ℓ
Fallible A = GoError ⊎ A

infixl 5 ◌>>=◌
abbrev pub ◌>>=◌ {ℓ κ} : {A : Type ℓ} {B : Type κ} → Fallible A → (A → Fallible B) → Fallible B
inl e >>= f = inl e
inr a >>= f = f a

-- fmt.Errorf around the error of a call.
abbrev pub wrap {ℓ} : {A : Type ℓ} → String → Fallible A → Fallible A
wrap m (inl e) = inl (wrapped m e)
wrap m (inr a) = inr a

-- `guard c e` stops with the error `e` unless `c`.
abbrev pub guard : Bool → GoError → Fallible (Unit {0})
guard true e = inr tt
guard false e = inl e

infixl 5 ◌>>◌
abbrev pub ◌>>◌ {ℓ} : {B : Type ℓ} → Fallible (Unit {0}) → Fallible B → Fallible B
m >> k = m >>= λ _. k

-- A bind that succeeds.
pub >>=-eq-inr {ℓ κ} :
    {A : Type ℓ} {B : Type κ} (m : Fallible A) (f : A → Fallible B) {b : B}
    → (m >>= f) ≡ inr b
    → (a : A) × (m ≡ inr a) × (f a ≡ inr b)
>>=-eq-inr (inl e) f h = absurd (cc h)
>>=-eq-inr (inr a) f h = (a, refl, h)

pub wrap-inr {ℓ} : {A : Type ℓ} {a : A} (m : String) (x : Fallible A) → wrap m x ≡ inr a → x ≡ inr a
wrap-inr m (inl e) h = absurd (cc h)
wrap-inr m (inr b) h = h

pub Fallible-cases {ℓ} :
    {A : Type ℓ} (x : Fallible A) → ((e : GoError) × (x ≡ inl e)) ⊎ ((a : A) × (x ≡ inr a))
Fallible-cases (inl e) = inl (e, refl)
Fallible-cases (inr a) = inr (a, refl)

-- io.Writer: "Write returns the number of bytes written from p (0 <= n <= len(p)) and any error
-- encountered that caused the write to stop early. Write must return a non-nil error if it returns
-- n < len(p)."
pub record Writer : Type 1 where
  pub State : Type 0
  pub write : State → Bytes → State × ℕ × Fault
  pub write-le : (s : State) (p : Bytes) → (write s p).1 ≤ length p
  pub write_full : (s : State) (p : Bytes) → (write s p).2 ≡ none → (write s p).1 ≡ length p

-- A writer together with the log of what it accepted, one entry for each call.
pub record Wire (w : Writer) : Type 0 where
  pub state : w.State
  pub sent : List Bytes

module _ (w : Writer) where
  -- One call of Write on the wrapped writer.
  unfoldable pub send : Wire w → Bytes → Wire w × ℕ × Fault
  send c p =
      let (s, n, err) = w.write c.state p in
      (record { state = s; sent = c.sent ++ take n p ∷ [] }, n, err)

-- A connection that accepts all that it is given.
abbrev pub perfect : Writer
perfect = record {
  State = Unit {0};
  write = λ s p. (s, length p, none);
  write-le = λ s p. omega arith;
  write_full = λ s p e. omega arith;
}
