-- ===== src/Shadowsocks/Salt.antt =====
-- transport/shadowsocks/salt.go, and init of the Writer in stream.go, which asks for the salt. rand.Read
-- of so many bytes is a parameter.
use bfx_outline_sdk.Prelude.{
  false, Option, take_all, ℕ, ◌-◌, ◌≡◌, ◌<◌, none, some, refl, sym, ap, ◌∙◌, [], ◌∷◌, ◌++◌, arith,
  length, subst, append_assoc, append-nil, flatten, flatten-append, replicate, List-cases, List,
  take, min, not, ◌==◌, if◌then◌else◌, inl, inr, true, Bool-cases, Bool,
}
use bfx_outline_sdk.Io.{
  Bytes, Fallible, Fault, Writer, Wire, message, wrap, ◌>>=◌, >>=-eq-inr, wrap-inr,
}
use bfx_outline_sdk.Shadowsocks.Nonce.{is_zero, is_zero-value, value-zeros, increment}
use bfx_outline_sdk.Shadowsocks.Cipher.{Aead}
use bfx_outline_sdk.Shadowsocks.Writer.{Session, new_session, uint16_be, write}
use bfx_outline_sdk.Shadowsocks.Writer.Sends.{Sends, messages}
use bfx_outline_sdk.Shadowsocks.Writer.Transfer.{NoEof}
use bfx_outline_sdk.Shadowsocks.Writer.Write.{Writes, write-Writes}

-- prefixSaltGenerator.GetSalt for a salt of `n` bytes.
unfoldable pub prefix_get_salt : (ℕ → Fallible Bytes) → Bytes → ℕ → Fallible Bytes
prefix_get_salt rand_read prefix n =
    let k = min n (length prefix) in
    if not (k == length prefix)
    then inl (message "prefix is too long")
    else rand_read (n - k) >>= λ (r : Bytes). inr (take k prefix ++ r)

-- What init sets.
pub record Opened (w : Writer) : Type 0 where
  pub salt : Bytes
  pub aead : Aead
  pub session : Session w

-- init of a Writer without an AEAD object. When it fails the Writer is as before.
unfoldable pub open_writer :
    {w : Writer} → (ℕ → Fallible Bytes) → (Bytes → Fallible Aead) → ℕ → Wire w → Fallible (Opened w)
open_writer {w} get_salt new_aead salt_size c =
    wrap "failed to generate salt" (get_salt salt_size) >>= λ (salt : Bytes).
    wrap "failed to create AEAD" (new_aead salt) >>= λ (aead : Aead).
    inr (record { salt = salt; aead = aead; session = new_session w salt aead c })

-- A salt with the prefix.
abbrev pub StartsWith : Bytes → Bytes → Type 0
StartsWith prefix p = (rest : Bytes) × (p ≡ prefix ++ rest)

prefix_get_salt-StartsWith :
    (rand_read : ℕ → Fallible Bytes) (prefix : Bytes) (n : ℕ) (salt : Bytes)
    → prefix_get_salt rand_read prefix n ≡ inr salt
    → StartsWith prefix salt
unfolding prefix_get_salt
prefix_get_salt-StartsWith rand_read prefix n salt h =
    let k = min n (length prefix) in
    let made = rand_read (n - k) >>= λ (r : Bytes). inr (take k prefix ++ r) in
    let branch : Bool → Fallible Bytes =
      λ b. if not b then inl (message "prefix is too long") else made in
    elim (Bool-cases (k == length prefix)) [
      | inr e ↦ absurd (cc (sym (ap branch e) ∙ h))
      | inl e ↦
          let (r, read, is) =
            >>=-eq-inr (rand_read (n - k)) (λ (r : Bytes). inr (take k prefix ++ r))
              (sym (ap branch e) ∙ h) in
          let whole : take k prefix ≡ prefix = take_all k prefix (ground arith) in
          (r, sym (cc is) ∙ ap (λ x. x ++ r) whole)
    ]

open_writer-inr :
    {w : Writer} (get_salt : ℕ → Fallible Bytes) (new_aead : Bytes → Fallible Aead) (n : ℕ)
    (c : Wire w) (o : Opened w)
    → open_writer get_salt new_aead n c ≡ inr o
    → (get_salt n ≡ inr o.salt) × (o.session ≡ new_session w o.salt o.aead c)
unfolding open_writer
open_writer-inr {w} get_salt new_aead n c o h =
    let (salt, got, h1) = >>=-eq-inr (wrap "failed to generate salt" (get_salt n)) _ h in
    let (aead, made, h2) = >>=-eq-inr (wrap "failed to create AEAD" (new_aead salt)) _ h1 in
    let o' : Opened w = record { salt = salt; aead = aead; session = new_session w salt aead c } in
    let same : o' ≡ o = cc h2 in
    (
      wrap-inr "failed to generate salt" (get_salt n) got ∙ ap (λ o. inr o.salt) same,
      subst (λ o. o.session ≡ new_session w o.salt o.aead c) same refl,
    )

-- The first bytes of a stream.
module _ (salt : Bytes) (aead : Aead) where
  messages-StartsWith :
      (ps : List Bytes)
      → 0 < length ps
      → StartsWith salt (flatten (messages salt aead (replicate aead.nonce_size 0) ps))
  messages-StartsWith [] h = absurd (omega arith)
  messages-StartsWith (p ∷ ps) h =
      let zeros : Bytes = replicate aead.nonce_size 0 in
      let size = aead.seal zeros (uint16_be (length p)) in
      let body = aead.seal (increment zeros) p in
      let later = flatten (messages salt aead (increment (increment zeros)) ps) in
      let first : is_zero zeros ≡ true = (is_zero-value zeros).1 (value-zeros aead.nonce_size) in
      let branch : Bool → Bytes = λ b. ((if b then salt else []) ++ size ++ body) ++ later in
      (
        (size ++ body) ++ later,
        ap branch first
            ∙ ap (λ x. x ++ later) (append_assoc salt size body)
            ∙ append_assoc salt (size ++ body) later,
      )

module _ {w : Writer} (salt : Bytes) (aead : Aead) where
  Done : Session w → Bytes → Option (Session w × ℕ × Fault) → Type 0
  Done s p none = Unit {0}
  Done s p (some (s', n, err)) = Writes w salt aead s p s' n err

  fresh-Writes :
      (c : Wire w) (p : Bytes) (s' : Session w) (n : ℕ) (err : Fault)
      → NoEof w
      → write w salt aead false (new_session w salt aead c) p ≡ some (s', n, err)
      → Writes w salt aead (new_session w salt aead c) p s' n err
  unfolding Done new_session
  fresh-Writes c p s' n err honest run =
      let s : Session w = new_session w salt aead c in
      let (s1, n1, err1, eq, h) =
        write-Writes w salt aead honest false s p (omega arith, λ e. refl) (λ e. absurd (cc e)) in
      subst (Done s p) run (subst (Done s p) (sym eq) h)

  fresh-StartsWith :
      (c : Wire w) (p : Bytes) (s' : Session w)
      → 0 < length p
      → s'.pending ≡ []
      → Sends salt aead (new_session w salt aead c) s' p
      → (rest : Bytes) × (flatten s'.writer.sent ≡ flatten c.sent ++ (salt ++ rest))
  unfolding new_session
  fresh-StartsWith c p s' pos empties d =
      let zeros : Bytes = replicate aead.nonce_size 0 in
      let plain : flatten d.chunks ≡ p =
        sym (append-nil (flatten d.chunks))
        ∙ ap (◌++◌ (flatten d.chunks)) (sym empties)
        ∙ d.plaintext in
      let some_chunk : 0 < length d.chunks = elim (List-cases d.chunks) [
        | inl e ↦ absurd (omega (arith, ap length (sym plain ∙ ap flatten e)))
        | inr (q, qs, e) ↦ omega (arith, ap length e)
      ] in
      let (rest, is) = messages-StartsWith salt aead d.chunks some_chunk in
      (
        rest,
        ap flatten d.sent_messages
            ∙ flatten-append c.sent (messages salt aead zeros d.chunks)
            ∙ ap (◌++◌ (flatten c.sent)) is,
      )

-- If init with a prefix salt generator succeeds and the first Write, of a slice that is not empty,
-- returns no error, the first bytes that the base writer gets are the prefix.
pub open-write-prefix :
    {w : Writer} (rand_read : ℕ → Fallible Bytes) (new_aead : Bytes → Fallible Aead)
    (prefix : Bytes) (salt_size : ℕ) (c : Wire w) (o : Opened w) (p : Bytes) (s' : Session w)
    (n : ℕ)
    → NoEof w
    → 0 < length p
    → open_writer (prefix_get_salt rand_read prefix) new_aead salt_size c ≡ inr o
    → write w o.salt o.aead false o.session p ≡ some (s', n, none)
    → (rest : Bytes) × (flatten s'.writer.sent ≡ flatten c.sent ++ (prefix ++ rest))
open-write-prefix {w} rand_read new_aead prefix salt_size c o p s' n honest pos opened run =
    let (got, fresh) =
      open_writer-inr (prefix_get_salt rand_read prefix) new_aead salt_size c o opened in
    let (tail, is_salt) = prefix_get_salt-StartsWith rand_read prefix salt_size o.salt got in
    let h =
      fresh-Writes o.salt o.aead c p s' n none honest
        (sym (ap (λ s. write w o.salt o.aead false s p) fresh) ∙ run) in
    let (rest, sent) = fresh-StartsWith o.salt o.aead c p s' pos h.empties (h.whole refl).1 in
    (
      tail ++ rest,
      sent
          ∙ ap (λ x. flatten c.sent ++ (x ++ rest)) is_salt
          ∙ ap (◌++◌ (flatten c.sent)) (append_assoc prefix tail rest),
    )
