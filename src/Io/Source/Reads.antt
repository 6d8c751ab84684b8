-- ===== src/Io/Source/Reads.antt =====
-- What one Read takes from a reader.
use bfx_outline_sdk.Prelude.{
  refl, [], none, inr, take-append-drop, append_assoc, sym, ◌∙◌, ap, inl, Bool-cases, if◌then◌else◌,
  length-append, length-take, ◌≤◌, ◌++◌, length-drop, ◌∷◌, ◌+◌, ◌<◌, ◌≡◌, arith,
}
use bfx_outline_sdk.Io.{take, Bool, none, length, ℕ, Bytes, Fault}
use bfx_outline_sdk.Io.Source.{ltb, drop, Source, unread, read}

-- The answers that are still to come and their bytes: every Read without an error leaves fewer.
abbrev pub remaining : Source → ℕ
remaining src = length (unread src) + length src

pub read-unread : (n : ℕ) (src : Source) → (read n src).0 ++ unread (read n src).2 ≡ unread src
unfolding read
read-unread n [] = refl
read-unread n ((c, e) ∷ r) =
    let branch : Bool → Bytes × Fault × Source =
      λ b. if b then (take n c, none, (drop n c, e) ∷ r) else (c, e, r) in
    elim (Bool-cases (ltb n (length c))) [
      | inl h ↦
          ap (λ b. (branch b).0 ++ unread (branch b).2) h
          ∙ sym (append_assoc (take n c) (drop n c) (unread r))
          ∙ ap (λ xs. xs ++ unread r) (take-append-drop n c)
      | inr h ↦ ap (λ b. (branch b).0 ++ unread (branch b).2) h
    ]

pub read-le : (n : ℕ) (src : Source) → length (read n src).0 ≤ n
unfolding read
read-le n [] = omega arith
read-le n ((c, e) ∷ r) = ground (arith, length-take n c)

pub remaining-read :
    (n : ℕ) (src : Source)
    → 0 < n
    → (read n src).1 ≡ none
    → remaining (read n src).2 < remaining src
unfolding read
remaining-read n [] h e = absurd (cc e)
remaining-read n ((c, e) ∷ r) h f =
    ground (arith, length-drop n c, length-append c (unread r), length-append (drop n c) (unread r))

pub remaining-read_le : (n : ℕ) (src : Source) → remaining (read n src).2 ≤ remaining src
unfolding read
remaining-read_le n [] = omega arith
remaining-read_le n ((c, e) ∷ r) =
    ground (arith, length-drop n c, length-append c (unread r), length-append (drop n c) (unread r))
