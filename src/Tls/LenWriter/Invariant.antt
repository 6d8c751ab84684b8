-- ===== src/Tls/LenWriter/Invariant.antt =====
-- The states of recordLenFragWriter: it waits for the header, writes the first record, or lets all
-- through; and the step from the second to the third.
use bfx_outline_sdk.Prelude.{
  ℕ, ◌+◌, ◌-◌, ◌≡◌, ◌≤◌, ◌<◌, none, Bool, [], ◌++◌, if◌then◌else◌, length, take, drop, sym, ap, ap₂,
  ◌∙◌, arith, flatten, append_assoc, length-append, ◌⊎◌, ltb, true, false, take-length-append,
  drop-length-append,
}
use bfx_outline_sdk.Prelude.Int.{ℤ, pos_part}
use bfx_outline_sdk.Io.{Bytes, Fault, Writer, Wire, is_some}
use bfx_outline_sdk.Tls.Header.{put_uint16, validate, payload_len}
use bfx_outline_sdk.Tls.LenWriter.{LenWriter, new_len_writer}
use bfx_outline_sdk.Tls.LenWriter.Reliable.{Passes}
use bfx_outline_sdk.Tls.LenWriter.First.{first_state}
use bfx_outline_sdk.Tls.LenWriter.Emits.{
  emitted, emitted_behind, emitted_cut, emitted_long, emitted_cut-append, no_cut,
}

module _ (frag : ℕ → ℤ) where
  -- Where a header asks for the cut.
  abbrev pub cut_of : Bytes → ℕ
  cut_of h = pos_part (frag (payload_len h))

  -- The header is a Client Hello's, and is cut inside the payload.
  pub record IsCut (h : Bytes) : Type 0 where
    pub length-header : length h ≡ 5
    pub valid : validate h ≡ none
    pub cut : no_cut frag h ≡ false
    pub cut_pos : 0 < cut_of h
    pub cut_lt : cut_of h < payload_len h
    pub payload_le : payload_len h ≤ 16384

  pub emitted-IsCut : (h q : Bytes) → IsCut h → emitted frag (h ++ q) ≡ emitted_cut h (cut_of h) q
  unfolding emitted_behind
  emitted-IsCut h q i =
      let branch : Bool → Bytes = λ b. if b then h ++ q else emitted_cut h (cut_of h) q in
      let outer : Fault → Bytes = λ e. if is_some e then h ++ q else branch (no_cut frag h) in
      emitted_long frag h q i.length-header ∙ ap outer i.valid ∙ ap branch i.cut

module _ {w : Writer} (frag : ℕ → ℤ) (before : Bytes) where
  pub record Collecting (t : Bytes) (s : LenWriter w) : Type 0 where
    pub wire : Wire w
    pub is : s ≡ record (new_len_writer w wire) { hdr = t }
    pub short : length t < 5
    pub sent : flatten wire.sent ≡ before

  pub record Writing (t : Bytes) (s : LenWriter w) : Type 0 where
    pub wire : Wire w
    pub header : Bytes
    pub payload : Bytes
    pub split : t ≡ header ++ payload
    pub is_cut : IsCut frag header
    pub is :
        s ≡ first_state wire header (cut_of frag header) (payload_len header) (5 + length payload)
    pub part : length payload < cut_of frag header
    pub sent : flatten wire.sent ≡ before ++ (put_uint16 header 3 (cut_of frag header) ++ payload)

  pub record Passing (t : Bytes) (s : LenWriter w) : Type 0 where
    pub done : s.done ≡ true
    pub no_header : s.hdr ≡ []
    pub sent : flatten s.base.sent ≡ before ++ emitted frag t
    pub through : (p : Bytes) → emitted frag (t ++ p) ≡ emitted frag t ++ p

  abbrev pub Inv : Bytes → LenWriter w → Type 0
  Inv t s = Collecting t s ⊎ (Writing t s ⊎ Passing t s)

  -- A Write takes its whole slice, counted by `n`, without an error.
  abbrev pub Takes : Bytes → ℕ → LenWriter w × ℕ × Fault → Type 0
  Takes t n r = (s : LenWriter w) × (r ≡ (s, n, none)) × Inv t s

  -- The first record is complete with the bytes `a` of its payload.
  pub completed :
      (h a rest : Bytes) (s : LenWriter w) (n : ℕ) (r : LenWriter w × ℕ × Fault)
      → IsCut frag h
      → length a ≡ cut_of frag h
      → s.done ≡ true
      → s.hdr ≡ put_uint16 h 3 (payload_len h - cut_of frag h)
      → flatten s.base.sent ≡ before ++ (put_uint16 h 3 (cut_of frag h) ++ a)
      → (x : Passes s rest n r) → Passing (h ++ (a ++ rest)) x.after
  unfolding emitted_cut
  completed h a rest s n r i len done hdr sent x =
      let k = cut_of frag h in
      let first = put_uint16 h 3 k in
      let second = put_uint16 h 3 (payload_len h - k) in
      let whole : k ≤ length (a ++ rest) = omega (arith, len, length-append a rest) in
      let branch : Bool → Bytes = λ b.
        if b
        then first ++ (a ++ rest)
        else (first ++ take k (a ++ rest)) ++ (second ++ drop k (a ++ rest)) in
      let off : ltb (length (a ++ rest)) k ≡ false = ground arith in
      let front : take k (a ++ rest) ≡ a =
        ap (λ n. take n (a ++ rest)) (sym len) ∙ take-length-append a rest in
      let back : drop k (a ++ rest) ≡ rest =
        ap (λ n. drop n (a ++ rest)) (sym len) ∙ drop-length-append a rest in
      let out : emitted_cut h k (a ++ rest) ≡ (first ++ a) ++ (second ++ rest) =
        ap branch off ∙ ap₂ (λ u v. (first ++ u) ++ (second ++ v)) front back in
      record {
        done = x.done_after ∙ done;
        no_header = x.no_header;
        sent =
            x.got
            ∙ ap₂ (λ u v. u ++ (v ++ rest)) sent hdr
            ∙ append_assoc before (first ++ a) (second ++ rest)
            ∙ ap (◌++◌ before) (sym (emitted-IsCut frag h (a ++ rest) i ∙ out));
        through = λ y.
            ap (emitted frag) (append_assoc h (a ++ rest) y)
            ∙ emitted-IsCut frag h ((a ++ rest) ++ y) i
            ∙ emitted_cut-append h k (a ++ rest) y whole
            ∙ ap (λ u. u ++ y) (sym (emitted-IsCut frag h (a ++ rest) i));
      }
