-- ===== src/Tls/LenWriter/Emits.antt =====
-- What recordLenFragWriter promises, as a function of the bytes written so far. Other than the writer
-- of writer.go it does not wait for the whole record.
use bfx_outline_sdk.Prelude.{
  drop-length-append, take-length-append, ℕ, ◌-◌, ◌≡◌, ◌≤◌, ◌<◌, [], ◌++◌, ◌||◌, if◌then◌else◌,
  length, take, drop, sym, ap, ap₂, ◌∙◌, arith, ltb, append_assoc, length-append, take-append_left,
  drop-append_left, Bool, true, false,
}
use bfx_outline_sdk.Prelude.Int.{ℤ, pos, pos_part, leb_ℤ}
use bfx_outline_sdk.Io.{Bytes, is_some}
use bfx_outline_sdk.Tls.Header.{payload_len, validate, put_uint16}

-- The record with the header `h` and the bytes `q` behind it, cut at `k`.
unfoldable pub emitted_cut : Bytes → ℕ → Bytes → Bytes
emitted_cut h k q =
    if ltb (length q) k
    then put_uint16 h 3 k ++ q
    else (put_uint16 h 3 k ++ take k q) ++ (put_uint16 h 3 (payload_len h - k) ++ drop k q)

module _ (frag : ℕ → ℤ) where
  abbrev pub no_cut : Bytes → Bool
  no_cut h =
      leb_ℤ (frag (payload_len h)) (pos 0) || leb_ℤ (pos (payload_len h)) (frag (payload_len h))

  unfoldable pub emitted_behind : Bytes → Bytes → Bytes
  emitted_behind h q =
      if is_some (validate h)
      then h ++ q
      else if no_cut h
      then h ++ q
      else emitted_cut h (pos_part (frag (payload_len h))) q

  unfoldable pub emitted : Bytes → Bytes
  emitted t = if ltb (length t) 5 then [] else emitted_behind (take 5 t) (drop 5 t)

  pub emitted_short : (t : Bytes) → length t < 5 → emitted t ≡ []
  unfolding emitted
  emitted_short t h =
      let branch : Bool → Bytes = λ b. if b then [] else emitted_behind (take 5 t) (drop 5 t) in
      let on : ltb (length t) 5 ≡ true = ground arith in ap branch on

  pub emitted_long : (h q : Bytes) → length h ≡ 5 → emitted (h ++ q) ≡ emitted_behind h q
  unfolding emitted
  emitted_long h q len =
      let t = h ++ q in
      let branch : Bool → Bytes = λ b. if b then [] else emitted_behind (take 5 t) (drop 5 t) in
      let off : ltb (length t) 5 ≡ false = ground (arith, len, length-append h q) in
      let front : take 5 t ≡ h = ap (λ n. take n t) (sym len) ∙ take-length-append h q in
      let back : drop 5 t ≡ q = ap (λ n. drop n t) (sym len) ∙ drop-length-append h q in
      ap branch off ∙ ap₂ emitted_behind front back

-- Once the first part is complete, what follows goes through as it is.
pub emitted_cut-append :
    (h : Bytes) (k : ℕ) (q p : Bytes)
    → k ≤ length q
    → emitted_cut h k (q ++ p) ≡ emitted_cut h k q ++ p
unfolding emitted_cut
emitted_cut-append h k q p le =
    let first = put_uint16 h 3 k in
    let second = put_uint16 h 3 (payload_len h - k) in
    let branch : Bytes → Bool → Bytes =
      λ q b. if b then first ++ q else (first ++ take k q) ++ (second ++ drop k q) in
    let off1 : ltb (length (q ++ p)) k ≡ false = ground (arith, length-append q p) in
    let off2 : ltb (length q) k ≡ false = ground arith in
    ap (branch (q ++ p)) off1
    ∙ ap₂ (λ a b. (first ++ a) ++ (second ++ b)) (take-append_left k q p le)
        (drop-append_left k q p le)
    ∙ ap (◌++◌ (first ++ take k q)) (sym (append_assoc second (drop k q) p))
    ∙ sym (append_assoc (first ++ take k q) (second ++ drop k q) p)
    ∙ ap (λ b. branch q b ++ p) (sym off2)
