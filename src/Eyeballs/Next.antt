-- ===== src/Eyeballs/Next.antt =====
-- DialStream of transport/happyeyeballs.go: the address that a dial takes.
use bfx_outline_sdk.Prelude.{
  ◌⊎◌, total, ◌&&◌, ◌||◌, inr, inl, ◌≢◌, ◌+◌, ◌≡◌, ◌<◌, arith, Bool, true, false, List, [], ◌∷◌,
  ◌++◌, length, refl, not, subst, ap, inl, inr, Bool-cases, sym, if◌then◌else◌,
}
use bfx_outline_sdk.Eyeballs.{
  is_valid, Option, some, Addr, Race, never, resolution_delay, delay_over, goes_on, prepare,
  is_empty, on_ready, handle, dial_round, attempt, attempt_4, attempt_6, or_panic, is_6,
}
use bfx_outline_sdk.Eyeballs.Attempts.{bit_4, bit_6, Kept}

-- The address that a dial takes: IPv6 first, then another family than the last, if both are there.
abbrev pub Next : Race → Addr → Type 0
Next s a =
    (((s.ip6s ≡ []) × (a.is6 ≡ false))
      ⊎ ((s.ip4s ≡ []) × (a.is6 ≡ true))
      ⊎ (a.is6 ≡ not (is_6 s.last_dialed)))

first_4 :
    (s : Race) (xs : List Addr)
    → 0 < length xs
    → s.ip4s ≡ xs
    → Kept (λ _. 1) s
    → (is_empty s.ip6s || (is_6 s.last_dialed && not (is_empty s.ip4s))) ≡ true
    → (a : Addr) × (t : Race) × (attempt_4 xs s ≡ some t)
      × (t.last_dialed ≡ some a)
      × (t.tried ≡ s.tried ++ a ∷ [])
      × Next s a
first_4 s [] z e h c = absurd (omega arith)
first_4 s (a ∷ rest) z e h c = (
  a,
  attempt a (record s { ip4s = rest }),
  refl,
  refl,
  refl,
  ground (arith, h, ap (total bit_6) e),
)

first_6 :
    (s : Race) (xs : List Addr)
    → 0 < length xs
    → s.ip6s ≡ xs
    → Kept (λ _. 1) s
    → (is_empty s.ip6s || (is_6 s.last_dialed && not (is_empty s.ip4s))) ≡ false
    → (a : Addr) × (t : Race) × (attempt_6 xs s ≡ some t)
      × (t.last_dialed ≡ some a)
      × (t.tried ≡ s.tried ++ a ∷ [])
      × Next s a
first_6 s [] z e h c = absurd (omega arith)
first_6 s (a ∷ rest) z e h c = (
  a,
  attempt a (record s { ip6s = rest }),
  refl,
  refl,
  refl,
  ground (arith, h, ap (total bit_4) e),
)

-- What a dial does from a state.
abbrev pub Dials : Race → Option Race → Type 0
Dials s o =
    (a : Addr) × (t : Race) × (o ≡ some t)
    × (t.last_dialed ≡ some a)
    × (t.tried ≡ s.tried ++ a ∷ [])
    × Next s a

pub on_ready-Dials :
    (s : Race) → 0 < length s.ip4s + length s.ip6s → Kept (λ _. 1) s → Dials s (on_ready s)
unfolding on_ready
on_ready-Dials s z h =
    let c = is_empty s.ip6s || (is_6 s.last_dialed && not (is_empty s.ip4s)) in
    let branch : Bool → Option Race = λ b. if b then attempt_4 s.ip4s s else attempt_6 s.ip6s s in
    elim (Bool-cases c) [
      | inl y ↦ subst (Dials s) (sym (ap branch y)) (first_4 s s.ip4s (ground arith) refl h y)
      | inr n ↦ subst (Dials s) (sym (ap branch n)) (first_6 s s.ip6s (ground arith) refl h n)
    ]

pub dial_round-delay :
    (s t : Race)
    → 0 < s.ops_pending
    → on_ready (prepare s) ≡ some t
    → dial_round delay_over s ≡ goes_on t
unfolding dial_round handle
dial_round-delay s t z e = ground (arith, ap or_panic e)

pub prepare-some : (s : Race) → (prepare s).ready ≢ never → 0 < length s.ip4s + length s.ip6s
unfolding prepare
prepare-some s n = ground arith

pub resolution_delay-first :
    (s : Race) (a : Addr)
    → Kept (λ _. 1) s
    → (prepare s).ready ≢ never
    → Next s a
    → (is_valid s.last_dialed ≡ true)
      ⊎ (a.is6 ≡ true)
      ⊎ (s.resolving ≡ false)
      ⊎ ((prepare s).ready ≡ resolution_delay)
unfolding prepare
resolution_delay-first s a h n x = ground (arith, h, x)
