-- ===== src/Io/Source/Full.antt =====
-- io.ReadFull from a reader that answers some bytes each time and no error until its end.
use bfx_outline_sdk.Prelude.{
  drop-length-append, ap₂, take-length-append, length-append, subst, Bool-cases, drop-append_right,
  take-append_right, length-drop, drop-append_left, if◌then◌else◌, append_assoc, take-append_left,
  ◌∙◌, ap, ◌-◌, ◌+◌, sym, ◌++◌, ◌≤◌, append-nil, ◌<◌, ◌≡◌, arith, [], ◌∷◌, refl, zero, suc,
}
use bfx_outline_sdk.Io.{inr, inl, Bool, some, take, none, length, ℕ, Bytes, Fault}
use bfx_outline_sdk.Io.Source.{
  ltb, drop, bytes_reader, Source, unread, read, read_full, read_full_loop,
}

-- However the bytes are cut up, no answer is empty and none has an error.
abbrev pub Smooth : Source → Type 0
Smooth [] = Unit {0}
Smooth ((c, e) ∷ r) = (0 < length c) × (e ≡ none) × Smooth r

pub bytes_reader-Smooth : (p : Bytes) → Smooth (bytes_reader p)
bytes_reader-Smooth [] = tt
bytes_reader-Smooth (b ∷ p) = (omega arith, refl, tt)

pub unread-bytes_reader : (p : Bytes) → unread (bytes_reader p) ≡ p
unread-bytes_reader [] = refl
unread-bytes_reader (b ∷ p) = append-nil (b ∷ p)

-- What ReadFull of `n` bytes gives when there are as many.
pub record FullRead (n : ℕ) (got : Bytes) (src : Source) (r : Bytes × Fault × Source) : Type 0 where
  pub bytes : r.0 ≡ got ++ take n (unread src)
  pub no_fault : r.1 ≡ none
  pub left : unread r.2 ≡ drop n (unread src)
  pub smooth : Smooth r.2

-- Less than an answer is wanted.
FullRead-part :
    (n : ℕ) (got c : Bytes) (r : Source)
    → n < length c
    → Smooth r
    → FullRead n got ((c, none) ∷ r) (got ++ take n c, none, (drop n c, none) ∷ r)
FullRead-part n got c r lt h = record {
  bytes = ap (◌++◌ got) (sym (take-append_left n c (unread r) (omega arith)));
  no_fault = refl;
  left = sym (drop-append_left n c (unread r) (omega arith));
  smooth = (omega (arith, length-drop n c), refl, h);
}

-- A whole answer is wanted, and `m` bytes behind it.
FullRead-then :
    (m : ℕ) (got c : Bytes) (r : Source) (x : Bytes × Fault × Source)
    → FullRead m (got ++ c) r x
    → FullRead (length c + m) got ((c, none) ∷ r) x
FullRead-then m got c r x f = record {
  bytes =
      f.bytes
      ∙ append_assoc got c (take m (unread r))
      ∙ ap (◌++◌ got) (sym (take-append_right m c (unread r)));
  no_fault = f.no_fault;
  left = f.left ∙ sym (drop-append_right m c (unread r));
  smooth = f.smooth;
}

FullRead-end : (got c : Bytes) (r : Source) → Smooth r → FullRead 0 (got ++ c) r (got ++ c, none, r)
FullRead-end got c r h = record {
  bytes = sym (append-nil (got ++ c));
  no_fault = refl;
  left = refl;
  smooth = h;
}

read_full_loop-FullRead :
    (n : ℕ) (got : Bytes) (src : Source)
    → Smooth src
    → n ≤ length (unread src)
    → FullRead n got src (read_full_loop n got src)
unfolding read_full_loop
read_full_loop-FullRead zero got src h le = record {
  bytes = sym (append-nil got);
  no_fault = refl;
  left = refl;
  smooth = h;
}
read_full_loop-FullRead (suc n) got [] h le = absurd (omega arith)
read_full_loop-FullRead (suc n) got ((c, some e) ∷ r) (hc, he, hr) le = absurd (cc he)
read_full_loop-FullRead (suc n) got ((c, none) ∷ r) (hc, he, hr) le =
    let more : Bytes × Fault × Source = read_full_loop (suc n - length c) (got ++ c) r in
    let whole : Bool → Bytes × Fault × Source = λ b. if b then more else (got ++ c, none, r) in
    let branch : Bool → Bytes × Fault × Source = λ b.
      if b
      then (got ++ take (suc n) c, none, (drop (suc n) c, none) ∷ r)
      else whole (ltb (length c) (suc n)) in
    let P : ℕ → Bytes × Fault × Source → Type 0 = λ k x. FullRead k got ((c, none) ∷ r) x in
    elim (Bool-cases (ltb (suc n) (length c))) [
      | inl h ↦
          subst (P (suc n)) (sym (ap branch h)) (FullRead-part (suc n) got c r (ground arith) hr)
      | inr h ↦ elim (Bool-cases (ltb (length c) (suc n))) [
        | inl k ↦
            let all : length c + (suc n - length c) ≡ suc n = ground arith in
            subst (P (suc n)) (sym (ap branch h ∙ ap whole k)) (
              subst (λ m. P m more) all
                (FullRead-then (suc n - length c) got c r more (
                  read_full_loop-FullRead (suc n - length c) (got ++ c) r hr
                    (omega (arith, length-append c (unread r))))))
        | inr k ↦
            let all : length c + 0 ≡ suc n = ground arith in
            subst (P (suc n)) (sym (ap branch h ∙ ap whole k)) (
              subst (λ m. P m (got ++ c, none, r)) all
                (FullRead-then 0 got c r (got ++ c, none, r) (FullRead-end got c r hr)))
      ]
    ]

pub read_full-FullRead :
    (n : ℕ) (src : Source)
    → Smooth src
    → n ≤ length (unread src)
    → FullRead n [] src (read_full n src)
unfolding read_full
read_full-FullRead n src h le = read_full_loop-FullRead n [] src h le

-- One Read of one byte.
pub read_byte-FullRead :
    (src : Source) → Smooth src → 1 ≤ length (unread src) → FullRead 1 [] src (read 1 src)
unfolding read
read_byte-FullRead [] h le = absurd (omega arith)
read_byte-FullRead ((c, some e) ∷ r) (hc, he, hr) le = absurd (cc he)
read_byte-FullRead ((c, none) ∷ r) (hc, he, hr) le =
    let branch : Bool → Bytes × Fault × Source =
      λ b. if b then (take 1 c, none, (drop 1 c, none) ∷ r) else (c, none, r) in
    let P : Bytes × Fault × Source → Type 0 = FullRead 1 [] ((c, none) ∷ r) in
    elim (Bool-cases (ltb 1 (length c))) [
      | inl h ↦ subst P (sym (ap branch h)) (FullRead-part 1 [] c r (ground arith) hr)
      | inr h ↦
          let all : length c + 0 ≡ 1 = ground arith in
          subst P (sym (ap branch h)) (
            subst (λ m. FullRead m [] ((c, none) ∷ r) (c, none, r)) all
              (FullRead-then 0 [] c r (c, none, r) (FullRead-end [] c r hr)))
    ]

-- The bytes `x` are read, and the reader has `rest` left.
abbrev pub Gets : Bytes → Bytes → Bytes × Fault × Source → Type 0
Gets x rest r = (s : Source) × (r ≡ (x, none, s)) × (unread s ≡ rest) × Smooth s

FullRead-Gets :
    (x rest : Bytes) (src : Source) (r : Bytes × Fault × Source)
    → unread src ≡ x ++ rest
    → FullRead (length x) [] src r
    → Gets x rest r
FullRead-Gets x rest src r e f =
    let bytes : r.0 ≡ x = f.bytes ∙ ap (take (length x)) e ∙ take-length-append x rest in
    (
      r.2,
      ap₂ (λ b err. (b, err, r.2)) bytes f.no_fault,
      f.left ∙ ap (drop (length x)) e ∙ drop-length-append x rest,
      f.smooth,
    )

pub read_full-Gets :
    (x rest : Bytes) (src : Source)
    → Smooth src
    → unread src ≡ x ++ rest
    → Gets x rest (read_full (length x) src)
read_full-Gets x rest src h e =
    FullRead-Gets x rest src (read_full (length x) src) e
      (read_full-FullRead (length x) src h (omega (arith, ap length e, length-append x rest)))

pub read_byte-Gets :
    (b : ℕ) (rest : Bytes) (src : Source)
    → Smooth src
    → unread src ≡ b ∷ rest
    → Gets (b ∷ []) rest (read 1 src)
read_byte-Gets b rest src h e =
    FullRead-Gets (b ∷ []) rest src (read 1 src) e
      (read_byte-FullRead src h (omega (arith, ap length e)))
