-- ===== src/Eyeballs/Rounds.antt =====
-- DialStream of transport/happyeyeballs.go: every round keeps what Attempts states.
use bfx_outline_sdk.Prelude.{
  bit, total, total-append, ◌&&◌, ◌||◌, inr, inl, ℕ, ◌+◌, ◌≡◌, ◌<◌, arith, Bool, true, false, List,
  [], ◌∷◌, ◌++◌, length, refl, not, subst, length-append, ap, inl, inr, Bool-cases, sym, ◌∙◌,
  if◌then◌else◌,
}
use bfx_outline_sdk.Io.{GoError}
use bfx_outline_sdk.Eyeballs.{
  Option, none, some, Addr, Race, Event, looked_up, lookups_done, delay_over, dial_failed, dialed,
  cancelled, Result, goes_on, prepare, is_empty, on_lookup, on_lookup_done, on_ready, on_dial_error,
  handle, dial_round, attempt_4, attempt_6, or_panic, is_6,
}
use bfx_outline_sdk.Eyeballs.Attempts.{
  bit_4, bit_6, family-only_4, family-only_6, Enabled, Reach, start, later, family, total-family,
  length-family, add_ips-family, Kept, start-Kept,
}

-- The select's branches, on the state that the head of the loop has prepared.
lookup-Kept : (f : Addr → ℕ) (ips : List Addr) (s : Race) → Kept f s → Kept f (on_lookup ips none s)
unfolding on_lookup
lookup-Kept f ips s h =
    let s1 : Race = record s { ops_pending = s.ops_pending + length ips; found = s.found ++ ips } in
    subst (Kept f) (sym (add_ips-family ips s1)) (
      ground (
        arith,
        length-append s.ip4s (family false ips),
        length-append s.ip6s (family true ips),
        total-append f s.ip4s (family false ips),
        total-append f s.ip6s (family true ips),
        total-append f s.found ips,
        total-append bit_6 s.ip4s (family false ips),
        total-append bit_4 s.ip6s (family true ips),
        family-only_4 ips,
        family-only_6 ips,
        length-family ips,
        total-family f ips,
        h,
      ))

dial_error-Kept :
    (f : Addr → ℕ) (before after : List Addr) (a : Addr) (e : GoError) (s : Race)
    → s.dialing ≡ before ++ a ∷ after
    → Kept f s
    → Kept f (on_dial_error a e (record s { dialing = before ++ after }))
unfolding on_dial_error
dial_error-Kept f before after a e s d h = ground (
  arith,
  ap (total f) d,
  ap length d,
  total-append f before (a ∷ after),
  total-append f before after,
  length-append before (a ∷ after),
  length-append before after,
  total-append f s.failed (a ∷ []),
  length-append s.failed (a ∷ []),
  h,
)

attempt-4-Kept :
    (f : Addr → ℕ) (xs : List Addr) (s t : Race)
    → s.ip4s ≡ xs
    → attempt_4 xs s ≡ some t
    → Kept f s
    → Kept f t
attempt-4-Kept f [] s t e p h = ground arith
attempt-4-Kept f (a ∷ xs) s t e p h = ground (
  arith,
  ap (total f) e,
  ap (total bit_6) e,
  ap (total bit_4) e,
  ap length e,
  total-append f s.dialing (a ∷ []),
  total-append f s.tried (a ∷ []),
  length-append s.dialing (a ∷ []),
  h,
)

pub prepare-Kept : (f : Addr → ℕ) (s : Race) → Kept f s → Kept f (prepare s)
unfolding prepare
prepare-Kept f s h = ground (arith, h)

attempt-6-Kept :
    (f : Addr → ℕ) (xs : List Addr) (s t : Race)
    → s.ip6s ≡ xs
    → attempt_6 xs s ≡ some t
    → Kept f s
    → Kept f t
attempt-6-Kept f [] s t e p h = ground arith
attempt-6-Kept f (a ∷ xs) s t e p h = ground (
  arith,
  ap (total f) e,
  ap (total bit_6) e,
  ap (total bit_4) e,
  ap length e,
  total-append f s.dialing (a ∷ []),
  total-append f s.tried (a ∷ []),
  length-append s.dialing (a ∷ []),
  h,
)

ready-Kept : (f : Addr → ℕ) (s t : Race) → on_ready s ≡ some t → Kept f s → Kept f t
unfolding on_ready
ready-Kept f s t e h =
    let c = is_empty s.ip6s || (is_6 s.last_dialed && not (is_empty s.ip4s)) in
    let branch : Bool → Option Race = λ b. if b then attempt_4 s.ip4s s else attempt_6 s.ip6s s in
    elim (Bool-cases c) [
      | inl y ↦ attempt-4-Kept f s.ip4s s t refl (sym (ap branch y) ∙ e) h
      | inr n ↦ attempt-6-Kept f s.ip6s s t refl (sym (ap branch n) ∙ e) h
    ]

-- The state that a result carries.
abbrev pub race_of : Race → Result → Race
race_of d (goes_on s) = s
race_of d _ = d

pub or_panic-on : (o : Option Race) (t : Race) → or_panic o ≡ goes_on t → o ≡ some t
or_panic-on none t e = ground arith
or_panic-on (some s) t e = ap some (ap (race_of s) e)

handle-Kept :
    (f : Addr → ℕ) (ev : Event) (s t : Race)
    → Enabled ev s
    → handle ev s ≡ goes_on t
    → Kept f s
    → Kept f t
unfolding handle on_lookup on_lookup_done
handle-Kept f (looked_up ips none) s t en e h =
    subst (Kept f) (ap (race_of s) e) (lookup-Kept f ips s h)
handle-Kept f (looked_up ips (some x)) s t en e h =
    subst (Kept f) (ap (race_of s) e) (ground (arith, h))
handle-Kept f lookups_done s t en e h =
    subst (Kept f) (ap (race_of s) e) (ground (arith, h, ap bit en))
handle-Kept f delay_over s t en e h = ready-Kept f s t (or_panic-on (on_ready s) t e) h
handle-Kept f (dial_failed before after a x) s t en e h =
    subst (Kept f) (ap (race_of s) e) (dial_error-Kept f before after a x s en h)
handle-Kept f (dialed before after a) s t en e h = ground arith
handle-Kept f (cancelled x) s t en e h = ground arith

-- A round goes on by what happens at the select.
pub dial_round-goes_on :
    (ev : Event) (s t : Race)
    → dial_round ev s ≡ goes_on t
    → (handle ev (prepare s) ≡ goes_on t) × (0 < s.ops_pending)
unfolding dial_round
dial_round-goes_on ev s t e = ground arith

pub Reach-Kept : (f : Addr → ℕ) {s : Race} → Reach s → Kept f s
Reach-Kept f start = start-Kept f
Reach-Kept f (later {s} {t} r ev en e) =
    handle-Kept f ev (prepare s) t en (dial_round-goes_on ev s t e).0
      (prepare-Kept f s (Reach-Kept f r))
