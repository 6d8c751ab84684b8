-- ===== src/Disorder/Runs.antt =====
-- Sequences of Writes on the writer of x/disorder/writer.go.
use bfx_outline_sdk.Prelude.{
  ℕ, suc, ◌-◌, ◌≡◌, ◌≤◌, ◌<◌, ◌==◌, Bool, true, false, none, some, List, [], ◌∷◌, ◌++◌,
  if◌then◌else◌, take, All, arith, refl, sym, ap, ◌∙◌, append_assoc, append-nil, ◌⊎◌, inl, inr,
}
use bfx_outline_sdk.Prelude.Int.{ℤ, pos, negsuc}
use bfx_outline_sdk.Io.{Bytes, GoError}
use bfx_outline_sdk.Disorder.{DisorderWriter, Answers, new_writer, write_conn, write}

-- Writes one after the other, each with what its calls return.
abbrev pub writes : List (Answers × Bytes) → DisorderWriter → DisorderWriter
writes [] w = w
writes ((a, p) ∷ xs) w = writes xs (write a p w).0

-- The socket options succeed.
abbrev pub OptionsWork : Answers × Bytes → Type 0
OptionsWork (a, p) = (a.get_err ≡ none) × (a.set_err ≡ none) × (a.restore_err ≡ none)

-- Whether `i` is the place; a negative one is none.
abbrev pub is_place : ℤ → ℕ → Bool
is_place (pos n) i = i == n
is_place (negsuc n) i = false

-- The pieces with their hop limits: 1 at the place `n`, counted from `i`, and `h` elsewhere.
abbrev pub pieces : ℕ → ℤ → ℕ → List (Answers × Bytes) → List (ℕ × Bytes)
pieces h n i [] = []
pieces h n i ((a, p) ∷ xs) = (if is_place n i then 1 else h, take a.n p) ∷ pieces h n (suc i) xs

-- The count after `i` Writes.
record Counts (h n i : ℕ) (w : DisorderWriter) : Type 0 where
  before : i ≤ n → w.writes_to_disorder ≡ pos (n - i)
  behind : n < i → w.writes_to_disorder ≡ negsuc 0
  normal : w.hop_limit ≡ h

write-before :
    (h n i : ℕ) (a : Answers) (p : Bytes) (w : DisorderWriter)
    → i < n
    → Counts h n i w
    → Counts h n (suc i) (write a p w).0 × ((write a p w).0.sent ≡ w.sent ++ (h, take a.n p) ∷ [])
unfolding write write_conn
write-before h n i a p w lt c =
    ground
      (arith, c.before (omega arith), c.normal, ap (λ k. w.sent ++ (k, take a.n p) ∷ []) c.normal)

write-behind :
    (h n i : ℕ) (a : Answers) (p : Bytes) (w : DisorderWriter)
    → n < i
    → Counts h n i w
    → Counts h n (suc i) (write a p w).0 × ((write a p w).0.sent ≡ w.sent ++ (h, take a.n p) ∷ [])
unfolding write write_conn
write-behind h n i a p w lt c =
    ground
      (arith, c.behind (omega arith), c.normal, ap (λ k. w.sent ++ (k, take a.n p) ∷ []) c.normal)

write-at :
    (h n i : ℕ) (a : Answers) (p : Bytes) (w : DisorderWriter)
    → OptionsWork (a, p)
    → i ≡ n
    → Counts h n i w
    → Counts h n (suc i) (write a p w).0 × ((write a p w).0.sent ≡ w.sent ++ (1, take a.n p) ∷ [])
unfolding write write_conn
write-at h n i a p w (g, s, r) e c = ground (arith, c.before (omega arith), c.normal)

trichotomy : (i n : ℕ) → (i < n) ⊎ (i ≡ n) ⊎ (n < i)
trichotomy i n = ground arith

not_here : (i n : ℕ) → (i < n) ⊎ (n < i) → (i == n) ≡ false
not_here i n (inl h) = ground arith
not_here i n (inr h) = ground arith

here : (i n : ℕ) → i ≡ n → (i == n) ≡ true
here i n h = ground arith

place :
    (h n i : ℕ) (a : Answers) (p : Bytes) (w : DisorderWriter)
    → OptionsWork (a, p)
    → Counts h n i w
    → Counts h n (suc i) (write a p w).0
      × ((write a p w).0.sent ≡ w.sent ++ (if i == n then 1 else h, take a.n p) ∷ [])
place h n i a p w o c =
    let piece : Bool → List (ℕ × Bytes) = λ b. w.sent ++ (if b then 1 else h, take a.n p) ∷ [] in
    elim (trichotomy i n) [
      | inl lt ↦
          let (k, e) = write-before h n i a p w lt c in
          (k, e ∙ ap piece (sym (not_here i n (inl lt))))
      | inr (inl eq) ↦
          let (k, e) = write-at h n i a p w o eq c in (k, e ∙ ap piece (sym (here i n eq)))
      | inr (inr gt) ↦
          let (k, e) = write-behind h n i a p w gt c in
          (k, e ∙ ap piece (sym (not_here i n (inr gt))))
    ]

write-never :
    (h n : ℕ) (a : Answers) (p : Bytes) (w : DisorderWriter)
    → w.writes_to_disorder ≡ negsuc n
    → w.hop_limit ≡ h
    → ((write a p w).0.writes_to_disorder ≡ negsuc n)
      × ((write a p w).0.hop_limit ≡ h)
      × ((write a p w).0.sent ≡ w.sent ++ (h, take a.n p) ∷ [])
unfolding write write_conn
write-never h n a p w c l = ground (arith, ap (λ k. w.sent ++ (k, take a.n p) ∷ []) l)

writes-from :
    (h n i : ℕ) (xs : List (Answers × Bytes)) (w : DisorderWriter)
    → All OptionsWork xs
    → Counts h n i w
    → ((writes xs w).sent ≡ w.sent ++ pieces h (pos n) i xs) × ((writes xs w).hop_limit ≡ h)
writes-from h n i [] w o c = (sym (append-nil w.sent), c.normal)
writes-from h n i ((a, p) ∷ xs) w (o, os) c =
    let (k, e) = place h n i a p w o c in
    let (sent, limit) = writes-from h n (suc i) xs (write a p w).0 os k in
    (
      sent
          ∙ ap (λ l. l ++ pieces h (pos n) (suc i) xs) e
          ∙ append_assoc w.sent ((if i == n then 1 else h, take a.n p) ∷ [])
              (pieces h (pos n) (suc i) xs),
      limit,
    )

writes-never :
    (h n i : ℕ) (xs : List (Answers × Bytes)) (w : DisorderWriter)
    → w.writes_to_disorder ≡ negsuc n
    → w.hop_limit ≡ h
    → ((writes xs w).sent ≡ w.sent ++ pieces h (negsuc n) i xs) × ((writes xs w).hop_limit ≡ h)
writes-never h n i [] w c l = (sym (append-nil w.sent), l)
writes-never h n i ((a, p) ∷ xs) w c l =
    let (k, m, e) = write-never h n a p w c l in
    let (sent, limit) = writes-never h n (suc i) xs (write a p w).0 k m in
    let later = pieces h (negsuc n) (suc i) xs in
    (sent ∙ ap (λ l. l ++ later) e ∙ append_assoc w.sent ((h, take a.n p) ∷ []) later, limit)

-- If the socket options succeed, just the Write at the place that NewWriter is given, and none for a
-- negative place, is sent with the hop limit 1, whatever Write of the connection returns, and all others
-- with the hop limit of the socket, which the socket has again in the end.
pub writes-pieces :
    (h : ℕ) (n : ℤ) (xs : List (Answers × Bytes))
    → All OptionsWork xs
    → ((writes xs (new_writer h n)).sent ≡ pieces h n 0 xs)
      × ((writes xs (new_writer h n)).hop_limit ≡ h)
writes-pieces h (pos n) xs o = writes-from h n 0 xs (new_writer h (pos n)) o (ground arith)
writes-pieces h (negsuc n) xs o = writes-never h n 0 xs (new_writer h (negsuc n)) refl refl

stuck :
    (a : Answers) (p : Bytes) (w : DisorderWriter)
    → w.hop_limit ≡ 1
    → w.writes_to_disorder ≡ negsuc 0
    → ((write a p w).0.hop_limit ≡ 1)
      × ((write a p w).0.writes_to_disorder ≡ negsuc 0)
      × ((write a p w).0.sent ≡ w.sent ++ (1, take a.n p) ∷ [])
unfolding write write_conn
stuck a p w h c = ground (arith, ap (λ k. w.sent ++ (k, take a.n p) ∷ []) h)

writes-stuck :
    (xs : List (Answers × Bytes)) (w : DisorderWriter)
    → w.hop_limit ≡ 1
    → w.writes_to_disorder ≡ negsuc 0
    → ((writes xs w).hop_limit ≡ 1)
      × ((later : List (ℕ × Bytes)) × ((writes xs w).sent ≡ w.sent ++ later)
          × All (λ x. x.0 ≡ 1) later)
writes-stuck [] w h c = (h, ([], sym (append-nil w.sent), tt))
writes-stuck ((a, p) ∷ xs) w h c =
    let (limit, count, sent) = stuck a p w h c in
    let (last, (later, all, ones)) = writes-stuck xs (write a p w).0 limit count in
    (
      last,
      (
        (1, take a.n p) ∷ later,
        all ∙ ap (λ l. l ++ later) sent ∙ append_assoc w.sent ((1, take a.n p) ∷ []) later,
        (refl, ones),
      ),
    )

broken :
    (a : Answers) (p : Bytes) (e : GoError) (w : DisorderWriter)
    → w.writes_to_disorder ≡ pos 0
    → a.get_err ≡ none
    → a.set_err ≡ none
    → a.restore_err ≡ some e
    → let x = write a p w in
      (x.1 ≡ a.n)
      × (x.2 ≡ a.write_err)
      × (x.0.hop_limit ≡ 1)
      × (x.0.writes_to_disorder ≡ negsuc 0)
      × (x.0.sent ≡ w.sent ++ (1, take a.n p) ∷ [])
unfolding write write_conn
broken a p e w z g s r = ground arith

-- If the hop limit is set to 1 for a Write, at whatever place, and cannot be restored, Write returns what
-- Write of the connection returned, no error of its own, and the socket keeps the hop limit 1: that Write
-- and whatever is written later is sent with it, whatever the later calls of the socket answer.
pub write-keeps_hop_limit :
    (a : Answers) (p : Bytes) (e : GoError) (xs : List (Answers × Bytes)) (w : DisorderWriter)
    → w.writes_to_disorder ≡ pos 0
    → a.get_err ≡ none
    → a.set_err ≡ none
    → a.restore_err ≡ some e
    → let x = write a p w in
      (x.1 ≡ a.n)
      × (x.2 ≡ a.write_err)
      × ((writes xs x.0).hop_limit ≡ 1)
      × ((later : List (ℕ × Bytes)) × ((writes xs x.0).sent ≡ w.sent ++ ((1, take a.n p) ∷ later))
          × All (λ x. x.0 ≡ 1) later)
write-keeps_hop_limit a p e xs w z g s r =
    let (n, err, limit, count, sent) = broken a p e w z g s r in
    let (last, (later, all, ones)) = writes-stuck xs (write a p w).0 limit count in
    (
      n,
      err,
      last,
      (
        later,
        all ∙ ap (λ l. l ++ later) sent ∙ append_assoc w.sent ((1, take a.n p) ∷ []) later,
        ones,
      ),
    )
