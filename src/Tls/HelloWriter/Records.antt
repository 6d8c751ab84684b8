-- ===== src/Tls/HelloWriter/Records.antt =====
-- splitHelloBufToRecord, which moves the bytes within one array, makes the two records.
use bfx_outline_sdk.Prelude.{
  inr, inl, false, ◌||◌, Bool-cases, take-append-drop, drop-length-append, drop-append_right,
  length-append, take_all, take-length-append, length-take, length-drop, ℕ, ◌+◌, ◌-◌, ◌%◌, ◌^◌, ◌≡◌,
  ◌<◌, refl, ◌≤◌, [], ◌∷◌, ◌++◌, length, take, drop, arith, ap, ap₂, sym, ◌∙◌, append-nil,
  append_assoc, replicate,
}
use bfx_outline_sdk.Io.{Bytes}
use bfx_outline_sdk.Tls.Header.{put_uint16, set_payload_len}
use bfx_outline_sdk.Tls.Header.Laws.{validate_range}
use bfx_outline_sdk.Prelude.Int.{ℤ, pos, pos_part, leb_ℤ}
use bfx_outline_sdk.Tls.Fragment.{IsHello, two_records, split_at}
use bfx_outline_sdk.Tls.HelloWriter.{copy_at, split_record, split_hello}

-- copy over a middle part of the same length.
copy_at_middle :
    (i : ℕ) (src pre mid post : Bytes)
    → i ≡ length pre
    → length mid ≡ length src
    → copy_at i src (pre ++ (mid ++ post)) ≡ pre ++ (src ++ post)
copy_at_middle i src pre mid post e len =
    ap₂ ◌++◌ (ap₂ ◌++◌ front middle) back ∙ append_assoc pre src post
  where
    dst : Bytes
    dst = pre ++ (mid ++ post)

    front : take i dst ≡ pre
    front = ap (λ k. take k dst) e ∙ take-length-append pre (mid ++ post)

    middle : take (length dst - i) src ≡ src
    middle =
        take_all (length dst - i) src
          (omega (arith, length-append pre (mid ++ post), length-append mid post))

    at : i + length src ≡ length pre + length mid
    at = omega arith

    back : drop (i + length src) dst ≡ post
    back =
        ap (λ k. drop k dst) at
        ∙ drop-append_right (length mid) pre (mid ++ post)
        ∙ drop-length-append mid post

set_payload_len_ok :
    (h : Bytes) (n : ℕ) → 0 < n → n ≤ 16384 → (set_payload_len h (n % 2 ^ 16)).0 ≡ put_uint16 h 3 n
unfolding set_payload_len
set_payload_len_ok h n low le = rw same (ground arith)
  where
    same : n % 65536 ≡ n
    same = omega arith

-- The array after the first header is set, the tail is moved, and the second header is in place.
module _ (a b c d e : ℕ) (xs ys : Bytes) where
  abbrev original : Bytes
  original = a ∷ b ∷ c ∷ d ∷ e ∷ (xs ++ ys)

  abbrev header : ℕ → Bytes
  header n = put_uint16 (a ∷ b ∷ c ∷ d ∷ e ∷ []) 3 n

  abbrev spare : Bytes
  spare = replicate 5 0

  abbrev gap : Bytes
  gap = take 5 (ys ++ spare)

  abbrev over : Bytes
  over = drop 5 (ys ++ spare)

  length-gap : length gap ≡ 5
  length-gap = omega (arith, length-take 5 (ys ++ spare), length-append ys spare)

  length-over : length over ≡ length ys
  length-over = omega (arith, length-drop 5 (ys ++ spare), length-append ys spare)

  abbrev first : Bytes
  first = header (length xs) ++ ((xs ++ ys) ++ spare)

  tail_lem : drop (5 + length xs) (take (length original) first) ≡ ys
  tail_lem =
      drop-append_right (length xs) (header (length xs))
        (take (length (xs ++ ys)) ((xs ++ ys) ++ spare))
      ∙ ap (drop (length xs)) (take-length-append (xs ++ ys) spare)
      ∙ drop-length-append xs ys

  move_tail : copy_at (10 + length xs) ys first ≡ (header (length xs) ++ (xs ++ gap)) ++ (ys ++ [])
  move_tail =
      ap (copy_at (10 + length xs) ys) first_is
      ∙ copy_at_middle (10 + length xs) ys (header (length xs) ++ (xs ++ gap)) over []
          (omega (arith, length-append xs gap, length-gap)) length-over
    where
      first_is : first ≡ (header (length xs) ++ (xs ++ gap)) ++ (over ++ [])
      first_is = ap (◌++◌ (header (length xs))) (
          append_assoc xs ys spare
          ∙ ap (◌++◌ xs) (sym (take-append-drop 5 (ys ++ spare)))
          ∙ sym (append_assoc xs gap over)
          ∙ ap (◌++◌ (xs ++ gap)) (sym (append-nil over)))

  put_header :
      copy_at
        (5 + length xs)
        (header (length xs))
        ((header (length xs) ++ (xs ++ gap)) ++ (ys ++ []))
      ≡ (header (length xs) ++ xs) ++ (header (length xs) ++ ys)
  put_header =
      ap (λ z. copy_at (5 + length xs) (header (length xs)) (header (length xs) ++ z))
        (append_assoc xs gap (ys ++ []) ∙ ap (λ t. xs ++ (gap ++ t)) (append-nil ys))
      ∙ copy_at_middle (5 + length xs) (header (length xs)) (header (length xs) ++ xs) gap ys
          (omega arith) length-gap

  set_second :
      copy_at
        (5 + length xs)
        (header (length ys))
        ((header (length xs) ++ xs) ++ (header (length xs) ++ ys))
      ≡ (header (length xs) ++ xs) ++ (header (length ys) ++ ys)
  set_second =
      copy_at_middle (5 + length xs) (header (length ys)) (header (length xs) ++ xs)
        (header (length xs)) ys (omega arith) refl

  second_header :
      take 5 (drop (5 + length xs) ((header (length xs) ++ xs) ++ (header (length xs) ++ ys)))
      ≡ header (length xs)
  second_header =
      ap (λ k. take 5 (drop k ((header (length xs) ++ xs) ++ (header (length xs) ++ ys)))) at
      ∙ ap (take 5) (drop-length-append (header (length xs) ++ xs) (header (length xs) ++ ys))
    where
      at : 5 + length xs ≡ length (header (length xs) ++ xs)
      at = omega arith

  split_record_lem :
      0 < length xs
      → 0 < length ys
      → length xs + length ys ≤ 16384
      → split_record original (length xs) ≡ (header (length xs) ++ xs) ++ (header (length ys) ++ ys)
  unfolding split_record
  split_record_lem hx hy le =
      rw
        (
          set_payload_len_ok (original ++ spare) (length xs) hx (omega arith),
          tail_lem,
          move_tail,
          put_header,
          second_header,
          tail_length,
          set_payload_len_ok (header (length xs)) (length ys) hy (omega arith),
        )
        set_second
    where
      tail_length : length (xs ++ ys) - length xs ≡ length ys
      tail_length = omega (arith, length-append xs ys)

-- The array moves make the two records of the specification.
split_record-two_records :
    (rec : Bytes) (k : ℕ)
    → 0 < k
    → k + 5 < length rec
    → length rec ≤ 16389
    → split_record rec k ≡ two_records rec k
unfolding two_records
split_record-two_records [] k lo hi le = absurd (omega arith)
split_record-two_records (_ ∷ []) k lo hi le = absurd (omega arith)
split_record-two_records (_ ∷ _ ∷ []) k lo hi le = absurd (omega arith)
split_record-two_records (_ ∷ _ ∷ _ ∷ []) k lo hi le = absurd (omega arith)
split_record-two_records (_ ∷ _ ∷ _ ∷ _ ∷ []) k lo hi le = absurd (omega arith)
split_record-two_records (a ∷ b ∷ c ∷ d ∷ e ∷ p) k lo hi le =
    ap₂ (λ q n. split_record (a ∷ b ∷ c ∷ d ∷ e ∷ q) n) (sym (take-append-drop k p)) (sym head)
    ∙ split_record_lem a b c d e (take k p) (drop k p) (omega (arith, head)) (omega (arith, tail))
        (omega (arith, head, tail))
    ∙ ap₂
        (λ n m.
          (header a b c d e (take k p) (drop k p) n ++ take k p)
          ++ (header a b c d e (take k p) (drop k p) m ++ drop k p))
        head tail
  where
    head : length (take k p) ≡ k
    head = omega (arith, length-take k p)

    tail : length (drop k p) ≡ length p - k
    tail = length-drop k p

inner_cut :
    (k : ℤ) (n : ℕ)
    → (leb_ℤ k (pos 0) || leb_ℤ (pos n) k) ≡ false
    → (0 < pos_part k) × (pos_part k < n)
inner_cut k n h = ground arith

-- Over a whole Client Hello, what w.record holds is what the specification makes of the record.
pub split_hello-split_at :
    (frag : Bytes → ℤ) (rec : Bytes) → IsHello rec → split_hello frag rec ≡ split_at frag rec
unfolding split_hello split_at
split_hello-split_at frag rec (v, len) =
    let k = frag (drop 5 rec) in
    elim (Bool-cases (leb_ℤ k (pos 0) || leb_ℤ (pos (length (drop 5 rec))) k)) [
      | inl whole ↦ rw whole
      | inr cut ↦
          let (lo, hi) = inner_cut k (length (drop 5 rec)) cut in
          rw cut (
            split_record-two_records rec (pos_part k) lo (omega (arith, length-drop 5 rec))
              (omega (arith, (validate_range (take 5 rec) v).1)))
    ]
