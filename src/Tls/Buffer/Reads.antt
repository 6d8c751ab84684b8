-- ===== src/Tls/Buffer/Reads.antt =====
-- io.ReadFull and the payload loop of clientHelloBuffer on the slice given to Write.
use bfx_outline_sdk.Prelude.{
  length-append, drop_all, take_all, append-nil, lt→ltb, le→ltb, ℕ, zero, suc, ◌+◌, ◌-◌, ◌≡◌, ◌<◌,
  refl, ◌≤◌, none, some, [], ◌∷◌, ◌++◌, length, take, drop, arith,
}
use native.Mathlib.Decide.{dec_lt}
use native.Mathlib.Nat.{add-zero}
use bfx_outline_sdk.Io.{unexpected_eof, Bytes, GoError, client_hello_received}
use bfx_outline_sdk.Io.Source.{Source, read_full, read_full_loop, bytes_reader}
use bfx_outline_sdk.Tls.Buffer.{HelloBuffer, fill, without_short}

loop_end :
    (n : ℕ) (got : Bytes)
    → 0 < n
    → 0 < length got
    → read_full_loop n got [] ≡ (got, some unexpected_eof, [])
unfolding read_full_loop
loop_end zero got h k = absurd (omega arith)
loop_end (suc n) [] h k = absurd (omega arith)
loop_end (suc n) (b ∷ got) h k = refl

-- io.ReadFull from a bytes.Reader that has fewer bytes than are wanted.
pub read_full_short :
    (n : ℕ) (p : Bytes)
    → length p < n
    → (e : GoError) × (read_full n (bytes_reader p) ≡ (p, some e, []))
      × (without_short (some e) ≡ none)
unfolding read_full read_full_loop
read_full_short zero p h = absurd (omega arith)
read_full_short (suc n) [] h = (_, refl, refl)
read_full_short (suc n) (b ∷ p) h = (
  unexpected_eof,
  rw (le→ltb (suc n) (suc (length p)) (omega arith), lt→ltb (suc (length p)) (suc n) h)
      (loop_end _ (b ∷ p) (omega arith) (omega arith)),
  refl,
)

bytes_reader_rest :
    (n : ℕ) (p : Bytes) → n < length p → bytes_reader (drop n p) ≡ (drop n p, none) ∷ []
bytes_reader_rest n [] h = absurd (omega arith)
bytes_reader_rest zero (b ∷ p) h = refl
bytes_reader_rest (suc n) (b ∷ p) h = bytes_reader_rest n p (omega arith)

pub read_full_enough :
    (n : ℕ) (p : Bytes)
    → 0 < n
    → n ≤ length p
    → read_full n (bytes_reader p) ≡ (take n p, none, bytes_reader (drop n p))
unfolding read_full read_full_loop
read_full_enough zero p h k = absurd (omega arith)
read_full_enough (suc n) [] h k = absurd (omega arith)
read_full_enough (suc n) (b ∷ p) h k = elim (dec_lt (suc n) (suc (length p))) [
  | yes more ↦ rw (lt→ltb _ _ more, bytes_reader_rest n p (omega arith)) refl
  | no all ↦
      rw
        (
          le→ltb (suc n) (suc (length p)) (omega arith),
          le→ltb (suc (length p)) (suc n) k,
          take_all n p (omega arith),
          drop_all n p (omega arith),
        )
        refl
]

-- The loop for the payload, on what is left of the slice.
pub fill_short :
    (b : HelloBuffer) (n : ℕ) (p : Bytes)
    → length b.bytes + length p < b.capacity - 5
    → fill b n (bytes_reader p) ≡ (record b { bytes = b.bytes ++ p }, n + length p, none, [])
unfolding fill
fill_short b n [] h =
    rw (lt→ltb (length b.bytes) (b.capacity - 5) (omega arith), append-nil b.bytes, add-zero n) refl
fill_short b n (x ∷ p) h =
    rw (take_all (b.capacity - 5 - length b.bytes) (x ∷ p) (omega arith))
      (ground (arith, length-append b.bytes (x ∷ p)))

pub fill_enough :
    (b : HelloBuffer) (n : ℕ) (p : Bytes)
    → length b.bytes < b.capacity - 5
    → b.capacity - 5 ≤ length b.bytes + length p
    → let room = b.capacity - 5 - length b.bytes in
      (src : Source) × (fill b n (bytes_reader p) ≡ (
        record b { bytes = b.bytes ++ take room p },
        n + length (take room p),
        some client_hello_received,
        src,
      ))
unfolding fill
fill_enough b n [] h k = absurd (omega arith)
fill_enough b n (x ∷ p) h k = elim (dec_lt (b.capacity - 5 - length b.bytes) (suc (length p))) [
  | yes more ↦ (
    (drop (b.capacity - 5 - length b.bytes) (x ∷ p), none) ∷ [],
    rw
        (
          lt→ltb (length b.bytes) (b.capacity - 5) h,
          lt→ltb (b.capacity - 5 - length b.bytes) (suc (length p)) more,
        )
        refl,
  )
  | no all ↦ (
    [],
    rw (take_all (b.capacity - 5 - length b.bytes) (x ∷ p) (omega arith))
        (ground (arith, length-append b.bytes (x ∷ p))),
  )
]
