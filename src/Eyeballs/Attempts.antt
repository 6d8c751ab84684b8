-- ===== src/Eyeballs/Attempts.antt =====
-- DialStream of transport/happyeyeballs.go: what the rounds keep, by weights of the addresses.
use bfx_outline_sdk.Prelude.{
  bit, total, total-length, inr, inl, ◌≢◌, ◌⊎◌, ℕ, ◌+◌, ◌≡◌, ◌≤◌, arith, Bool, true, false, List,
  [], ◌∷◌, ◌++◌, length, refl, not, ap, ap₂, inl, inr, Bool-cases, append-nil, append_assoc, sym,
  ◌∙◌, if◌then◌else◌,
}
use bfx_outline_sdk.Io.{is_some}
use bfx_outline_sdk.Eyeballs.{
  Addr, Race, new_race, ReadyToDial, never, attempt_delay, Event, looked_up, lookups_done,
  delay_over, dial_failed, dialed, cancelled, goes_on, prepare, is_valid, add_ips, dial_round,
}

-- Which events the select can see, in a state that the head of the loop has prepared.
abbrev pub Enabled : Event → Race → Type 0
Enabled (looked_up ips err) s = s.resolving ≡ true
Enabled lookups_done s = s.resolving ≡ true
Enabled delay_over s = s.ready ≢ never
Enabled (dial_failed before after a e) s = s.dialing ≡ before ++ a ∷ after
Enabled (dialed before after a) s = s.dialing ≡ before ++ a ∷ after
Enabled (cancelled e) s = Unit

-- The states that the loop reaches.
pub data Reach : Race → Type 0 where
  start : Reach new_race
  later :
      {s t : Race}
      → Reach s
      → (e : Event) → Enabled e (prepare s)
      → dial_round e s ≡ goes_on t
      → Reach t

abbrev pub is_attempt : ReadyToDial → Bool
is_attempt attempt_delay = true
is_attempt _ = false

abbrev pub eqb : Bool → Bool → Bool
eqb true b = b
eqb false b = not b

abbrev pub bit_6 : Addr → ℕ
bit_6 a = bit a.is6

abbrev pub bit_4 : Addr → ℕ
bit_4 a = bit (not a.is6)

-- The addresses of a list that are of a family.
abbrev pub family : Bool → List Addr → List Addr
family b [] = []
family b (a ∷ xs) = if eqb a.is6 b then a ∷ family b xs else family b xs

pub total-family :
    (f : Addr → ℕ) (xs : List Addr)
    → total f (family false xs) + total f (family true xs) ≡ total f xs
total-family f [] = refl
total-family f (a ∷ xs) =
    let ih = total-family f xs in
    elim (Bool-cases a.is6) [ inl e ↦ ground (arith, ih) | inr e ↦ ground (arith, ih) ]

pub length-family :
    (xs : List Addr) → length (family false xs) + length (family true xs) ≡ length xs
length-family xs = omega (
  arith,
  total-family (λ _. 1) xs,
  total-length xs,
  total-length (family false xs),
  total-length (family true xs),
)

pub family-only_4 : (xs : List Addr) → total bit_6 (family false xs) ≡ 0
family-only_4 [] = refl
family-only_4 (a ∷ xs) =
    let ih = family-only_4 xs in
    elim (Bool-cases a.is6) [ inl e ↦ ground (arith, ih) | inr e ↦ ground (arith, ih) ]

pub family-only_6 : (xs : List Addr) → total bit_4 (family true xs) ≡ 0
family-only_6 [] = refl
family-only_6 (a ∷ xs) =
    let ih = family-only_6 xs in
    elim (Bool-cases a.is6) [ inl e ↦ ground (arith, ih) | inr e ↦ ground (arith, ih) ]

abbrev pub with_ips : Race → List Addr → List Addr → Race
with_ips s xs ys = record s { ip4s = xs; ip6s = ys }

-- One address more, of the family or not.
family-in :
    (b : Bool) (a : Addr) (ips xs : List Addr)
    → eqb a.is6 b ≡ true
    → xs ++ a ∷ [] ++ family b ips ≡ xs ++ family b (a ∷ ips)
family-in b a ips xs e =
    append_assoc xs (a ∷ []) (family b ips)
    ∙ sym (ap (λ c. xs ++ (if c then a ∷ family b ips else family b ips)) e)

family-out :
    (b : Bool) (a : Addr) (ips xs : List Addr)
    → eqb a.is6 b ≡ false
    → xs ++ family b ips ≡ xs ++ family b (a ∷ ips)
family-out b a ips xs e = sym (ap (λ c. xs ++ (if c then a ∷ family b ips else family b ips)) e)

-- The loop over the IPs sorts them by family.
pub add_ips-family :
    (ips : List Addr) (s : Race)
    → add_ips ips s ≡ with_ips s (s.ip4s ++ family false ips) (s.ip6s ++ family true ips)
add_ips-family [] s = ap₂ (with_ips s) (sym (append-nil s.ip4s)) (sym (append-nil s.ip6s))
add_ips-family (a ∷ ips) s =
    let v6 : Race = record s { ip6s = s.ip6s ++ a ∷ [] } in
    let v4 : Race = record s { ip4s = s.ip4s ++ a ∷ [] } in
    elim (Bool-cases a.is6) [
      | inl e ↦
          ap (λ b. add_ips ips (if b then v6 else v4)) e
          ∙ add_ips-family ips v6
          ∙ ap₂ (with_ips s) (family-out false a ips s.ip4s (ap (λ c. eqb c false) e))
              (family-in true a ips s.ip6s (ap (λ c. eqb c true) e))
      | inr e ↦
          ap (λ b. add_ips ips (if b then v6 else v4)) e
          ∙ add_ips-family ips v4
          ∙ ap₂ (with_ips s) (family-in false a ips s.ip4s (ap (λ c. eqb c false) e))
              (family-out true a ips s.ip6s (ap (λ c. eqb c true) e))
    ]

-- What the loop keeps; `f` is any weight of the addresses.
pub record Kept (f : Addr → ℕ) (s : Race) : Type 0 where
  pub counted : s.ops_pending ≡ bit s.resolving + length s.ip4s + length s.ip6s + length s.dialing
  pub all_found : total f s.found ≡ total f s.ip4s + total f s.ip6s + total f s.tried
  pub all_tried : total f s.tried ≡ total f s.dialing + total f s.failed
  pub only_4 : total bit_6 s.ip4s ≡ 0
  pub only_6 : total bit_4 s.ip6s ≡ 0
  pub error_kept : length s.failed ≡ 0 ⊎ (is_some s.dial_err ≡ true)
  pub delay_kept :
      bit (is_attempt s.ready) + bit s.resolving ≤ 1 + bit (is_valid s.last_dialed) + length s.ip6s

pub start-Kept : (f : Addr → ℕ) → Kept f new_race
start-Kept f = record {
  counted = refl;
  all_found = refl;
  all_tried = refl;
  only_4 = refl;
  only_6 = refl;
  error_kept = inl refl;
  delay_kept = omega arith;
}
