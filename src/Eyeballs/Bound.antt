-- ===== src/Eyeballs/Bound.antt =====
-- DialStream of transport/happyeyeballs.go: how many rounds there can be.
use bfx_outline_sdk.Prelude.{
  ◌≤◌, ◌↔◌, length-nil, bit, ◌*◌, ◌&&◌, ◌||◌, inr, inl, ℕ, suc, ◌+◌, ◌≡◌, arith, Bool, true, false,
  List, [], ◌∷◌, ◌++◌, length, refl, not, subst, length-append, ap, inl, inr, Bool-cases, sym, ◌∙◌,
  if◌then◌else◌,
}
use bfx_outline_sdk.Eyeballs.{
  Option, none, some, Addr, Race, Event, looked_up, lookups_done, delay_over, dial_failed, dialed,
  cancelled, goes_on, prepare, is_empty, on_lookup, on_lookup_done, on_ready, on_dial_error, handle,
  attempt_4, attempt_6, is_6,
}
use bfx_outline_sdk.Eyeballs.Attempts.{
  family, add_ips-family, length-family, Enabled, Reach, start, later, family, length-family,
  add_ips-family,
}
use bfx_outline_sdk.Eyeballs.Rounds.{race_of, or_panic-on, dial_round-goes_on}

-- The rounds of a race, and those that took a result of a lookup.
abbrev pub rounds : {s : Race} → Reach s → ℕ
rounds start = 0
rounds (later r ev en e) = suc (rounds r)

abbrev pub is_lookup : Event → ℕ
is_lookup (looked_up ips err) = 1
is_lookup _ = 0

abbrev pub lookups : {s : Race} → Reach s → ℕ
lookups start = 0
lookups (later r ev en e) = is_lookup ev + lookups r

-- The rounds that are still due, for what is known.
abbrev due : Race → ℕ
due s = bit s.resolving + 2 * (length s.ip4s + length s.ip6s) + length s.dialing

abbrev Spends : ℕ → Race → Race → Type 0
Spends n s t = 1 + due t + 2 * length s.found ≡ n + due s + 2 * length t.found

lookup-Spends : (ips : List Addr) (s : Race) → Spends 1 s (on_lookup ips none s)
unfolding on_lookup
lookup-Spends ips s =
    let s1 : Race = record s { ops_pending = s.ops_pending + length ips; found = s.found ++ ips } in
    subst (Spends 1 s) (sym (add_ips-family ips s1)) (
      omega (
        arith,
        length-append s.ip4s (family false ips),
        length-append s.ip6s (family true ips),
        length-append s.found ips,
        length-family ips,
      ))

attempt_4-Spends :
    (xs : List Addr) (s t : Race) → s.ip4s ≡ xs → attempt_4 xs s ≡ some t → Spends 0 s t
attempt_4-Spends [] s t e p = ground arith
attempt_4-Spends (a ∷ xs) s t e p = ground (arith, ap length e, length-append s.dialing (a ∷ []))

attempt_6-Spends :
    (xs : List Addr) (s t : Race) → s.ip6s ≡ xs → attempt_6 xs s ≡ some t → Spends 0 s t
attempt_6-Spends [] s t e p = ground arith
attempt_6-Spends (a ∷ xs) s t e p = ground (arith, ap length e, length-append s.dialing (a ∷ []))

ready-Spends : (s t : Race) → on_ready s ≡ some t → Spends 0 s t
unfolding on_ready
ready-Spends s t e =
    let c = is_empty s.ip6s || (is_6 s.last_dialed && not (is_empty s.ip4s)) in
    let branch : Bool → Option Race = λ b. if b then attempt_4 s.ip4s s else attempt_6 s.ip6s s in
    elim (Bool-cases c) [
      | inl y ↦ attempt_4-Spends s.ip4s s t refl (sym (ap branch y) ∙ e)
      | inr n ↦ attempt_6-Spends s.ip6s s t refl (sym (ap branch n) ∙ e)
    ]

handle-Spends :
    (ev : Event) (s t : Race) → Enabled ev s → handle ev s ≡ goes_on t → Spends (is_lookup ev) s t
unfolding handle on_lookup on_lookup_done on_dial_error
handle-Spends (looked_up ips none) s t en e =
    subst (Spends 1 s) (ap (race_of s) e) (lookup-Spends ips s)
handle-Spends (looked_up ips (some x)) s t en e =
    subst (Spends 1 s) (ap (race_of s) e) (omega arith)
handle-Spends lookups_done s t en e =
    subst (Spends 0 s) (ap (race_of s) e) (omega (arith, ap bit en))
handle-Spends delay_over s t en e = ready-Spends s t (or_panic-on (on_ready s) t e)
handle-Spends (dial_failed before after a x) s t en e =
    subst (Spends 0 s) (ap (race_of s) e)
      (omega (arith, ap length en, length-append before (a ∷ after), length-append before after))
handle-Spends (dialed before after a) s t en e = ground arith
handle-Spends (cancelled x) s t en e = ground arith

not_resolving : (b : Bool) → bit b ≡ 0 → b ≡ false
not_resolving b e = ground arith

rounds-due :
    {s : Race} (r : Reach s)
    → rounds r + (bit s.resolving + 2 * (length s.ip4s + length s.ip6s) + length s.dialing)
      ≡ 1 + lookups r + 2 * length s.found
unfolding prepare
rounds-due start = refl
rounds-due (later {s} {t} r ev en e) =
    omega (arith, rounds-due r, handle-Spends ev (prepare s) t en (dial_round-goes_on ev s t e).0)

-- The rounds of a race up to a state, with one if the lookups have not ended, two for each address that
-- waits to be dialled and one for each dial that runs, are just one, one for each result of a lookup that
-- was taken, and two for each address found. So they are no more than these; and just as many when the
-- lookups have ended, no address waits and no dial runs.
pub Reach-rounds :
    {s : Race} (r : Reach s)
    → (rounds r + (bit s.resolving + 2 * (length s.ip4s + length s.ip6s) + length s.dialing)
        ≡ 1 + lookups r + 2 * length s.found)
      × (rounds r ≤ 1 + lookups r + 2 * length s.found)
      × ((rounds r ≡ 1 + lookups r + 2 * length s.found)
          ↔ ((s.resolving ≡ false) × (s.ip4s ≡ []) × (s.ip6s ≡ []) × (s.dialing ≡ [])))
Reach-rounds {s} r =
    let e = rounds-due r in
    (
      e,
      omega (arith, e),
      (
        λ full. (
          not_resolving s.resolving (omega (arith, e, full)),
          length-nil s.ip4s (omega (arith, e, full)),
          length-nil s.ip6s (omega (arith, e, full)),
          length-nil s.dialing (omega (arith, e, full)),
        ),
        λ (ended, no_4, no_6, none_runs).
            omega (arith, e, ap bit ended, ap length no_4, ap length no_6, ap length none_runs),
      ),
    )
