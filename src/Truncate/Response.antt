-- ===== src/Truncate/Response.antt =====
-- The response of the truncation relay, byte by byte.
use bfx_outline_sdk.Prelude.{
  inl, ◌∙◌, sym, inr, Bool-cases, if◌then◌else◌, ◌⊎◌, ==_iff, ap, ℕ, zero, suc, ◌*◌, ◌/◌, ◌%◌, ◌≡◌,
  ◌<◌, Bool, true, ◌==◌, ◌&&◌, refl, ◌∷◌, arith,
}
use bfx_outline_sdk.Io.{Bytes}
use bfx_outline_sdk.Truncate.{truncated}
use Prim.Native.Nat.{bit_and, bit_or}

-- How many numbers below a bound fail a test.
failures : (ℕ → Bool) → ℕ → ℕ
failures test zero = 0
failures test (suc n) = let rest = failures test n in if test n then rest else suc rest

lt-or-eq : (b n : ℕ) → b < suc n → (b < n) ⊎ (b ≡ n)
lt-or-eq b n h = ground arith

passes :
    (test : ℕ → Bool) (bound : ℕ) → failures test bound ≡ 0 → (b : ℕ) → b < bound → test b ≡ true
unfolding failures
passes test zero h b lt = absurd (omega arith)
passes test (suc n) h b lt =
    let branch : Bool → ℕ = λ t. if t then failures test n else suc (failures test n) in
    elim (Bool-cases (test n)) [
      | inr e ↦ absurd (omega (arith, sym (ap branch e) ∙ h))
      | inl e ↦ elim (lt-or-eq b n lt) [
        | inl below ↦ passes test n (sym (ap branch e) ∙ h) b below
        | inr same ↦ ap test same ∙ e
      ]
    ]

-- The bits of a byte from the highest: QR is the first, TC the seventh.
qr_table : failures (λ b. bit_or b 0x82 / 128 % 2 == 1) 256 ≡ 0
unfolding failures
qr_table = refl

tc_table : failures (λ b. bit_or b 0x82 / 2 % 2 == 1) 256 ≡ 0
unfolding failures
tc_table = refl

kept_table :
    failures (λ b. bit_or b 0x82 % 2 == b % 2 && bit_or b 0x82 / 4 % 32 == b / 4 % 32) 256 ≡ 0
unfolding failures
kept_table = refl

rcode_table : failures (λ b. bit_and b 0xf0 == b / 16 * 16) 256 ≡ 0
unfolding failures
rcode_table = refl

-- A response with the header of its request, but for the flags and ANCOUNT.
pub record Truncates (id1 id2 f1 f2 qd1 qd2 ns1 ns2 ar1 ar2 : ℕ) (rest r : Bytes) : Type 0 where
  pub flags : ℕ
  pub is :
      r ≡ id1 ∷ id2 ∷ flags ∷ (f2 / 16 * 16) ∷ qd1 ∷ qd2 ∷ qd1 ∷ qd2 ∷ ns1 ∷ ns2 ∷ ar1 ∷ ar2 ∷ rest
  pub response_bit : flags / 128 % 2 ≡ 1
  pub truncated_bit : flags / 2 % 2 ≡ 1
  pub recursion_bit : flags % 2 ≡ f1 % 2
  pub opcode_bits : flags / 4 % 32 ≡ f1 / 4 % 32

-- In the response to a request of at least a header, with flags below 256, QR and TC are set and the
-- other bits of their byte kept, the response code is zero, ANCOUNT is QDCOUNT, and all else is as it
-- was.
pub truncated-Truncates :
    (id1 id2 f1 f2 qd1 qd2 an1 an2 ns1 ns2 ar1 ar2 : ℕ) (rest : Bytes)
    → f1 < 256
    → f2 < 256
    → Truncates id1 id2 f1 f2 qd1 qd2 ns1 ns2 ar1 ar2 rest
        (truncated (id1 ∷ id2 ∷ f1 ∷ f2 ∷ qd1 ∷ qd2 ∷ an1 ∷ an2 ∷ ns1 ∷ ns2 ∷ ar1 ∷ ar2 ∷ rest))
unfolding truncated
truncated-Truncates id1 id2 f1 f2 qd1 qd2 an1 an2 ns1 ns2 ar1 ar2 rest h k = record {
  flags = bit_or f1 0x82;
  is =
      let low : bit_and f2 0xf0 ≡ f2 / 16 * 16 = ground (arith, passes _ 256 rcode_table f2 k) in
      ap
        (λ b. id1 ∷ id2 ∷ bit_or f1 0x82 ∷ b ∷ qd1 ∷ qd2 ∷ qd1 ∷ qd2 ∷ ns1 ∷ ns2 ∷ ar1 ∷ ar2 ∷ rest)
        low;
  response_bit = (==_iff _ 1).0 (passes _ 256 qr_table f1 h);
  truncated_bit = (==_iff _ 1).0 (passes _ 256 tc_table f1 h);
  recursion_bit = ground (arith, passes _ 256 kept_table f1 h);
  opcode_bits = ground (arith, passes _ 256 kept_table f1 h);
}
