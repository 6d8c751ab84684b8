-- ===== src/Shadowsocks/Nonce.antt =====
-- transport/shadowsocks/stream.go: increment and isZero, on the nonce of a stream. A nonce is a
-- little-endian number of a fixed count of bytes.
use bfx_outline_sdk.Prelude.{
  replicate, zero, suc, ◌⊎◌, ◌↔◌, ℕ, ◌+◌, ◌*◌, ◌%◌, ◌^◌, ◌≡◌, ◌<◌, refl, Bool, true, false, [], ◌∷◌,
  not, ◌==◌, if◌then◌else◌, length, All, arith, inr,
}
use bfx_outline_sdk.Io.{Bytes}
use native.Mathlib.Nat.{pow-succ'}

unfoldable pub increment : Bytes → Bytes
increment [] = []
increment (b ∷ rest) =
    let b' = (b + 1) % 256 in
    let carried = b' ∷ increment rest in if not (b' == 0) then b' ∷ rest else carried

unfoldable pub is_zero : Bytes → Bool
is_zero [] = true
is_zero (v ∷ rest) = let more = is_zero rest in if not (v == 0) then false else more

-- The number that a nonce stands for.
pub value : Bytes → ℕ
value [] = 0
value (b ∷ rest) = b + 256 * value rest

abbrev pub AllBytes : Bytes → Type 0
AllBytes = All (λ b. b < 256)

pub length-increment : (b : Bytes) → length (increment b) ≡ length b
unfolding increment
length-increment [] = refl
length-increment (b ∷ rest) = ground (arith, length-increment rest)

pub increment-AllBytes : (b : Bytes) → AllBytes b → AllBytes (increment b)
unfolding increment
increment-AllBytes [] h = tt
increment-AllBytes (b ∷ rest) (h, hs) = ground (arith, increment-AllBytes rest hs)

pub value-lt : (b : Bytes) → AllBytes b → value b < 256 ^ length b
unfolding value
value-lt [] h = omega arith
value-lt (b ∷ rest) (h, hs) = omega (arith, value-lt rest hs, pow-succ' 256 (length rest))

-- Adding one to a nonce adds one to its number, and a nonce of ones everywhere wraps around to zero.
pub value-increment :
    (b : Bytes)
    → AllBytes b
    → (value (increment b) ≡ value b + 1)
      ⊎ ((value (increment b) ≡ 0) × (value b + 1 ≡ 256 ^ length b))
unfolding value increment
value-increment [] h = inr (refl, omega arith)
value-increment (b ∷ rest) (h, hs) =
    ground (arith, value-increment rest hs, pow-succ' 256 (length rest))

pub is_zero-value : (b : Bytes) → (is_zero b ≡ true) ↔ (value b ≡ 0)
unfolding is_zero value
is_zero-value [] = ground arith
is_zero-value (b ∷ rest) = ground (arith, is_zero-value rest)

pub value-zeros : (n : ℕ) → value (replicate n 0) ≡ 0
unfolding value
value-zeros zero = refl
value-zeros (suc n) = omega (arith, value-zeros n)

pub AllBytes-zeros : (n : ℕ) → AllBytes (replicate n 0)
AllBytes-zeros zero = tt
AllBytes-zeros (suc n) = (omega arith, AllBytes-zeros n)
