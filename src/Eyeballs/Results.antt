-- ===== src/Eyeballs/Results.antt =====
-- DialStream of transport/happyeyeballs.go: what holds of every race.
use bfx_outline_sdk.Prelude.{
  total, total-length, inr, inl, ◌≢◌, ◌⊎◌, ℕ, ◌≡◌, ◌<◌, arith, true, false, [], ◌∷◌, ◌++◌, length,
  not, ap, inl, inr,
}
use bfx_outline_sdk.Io.{is_some}
use bfx_outline_sdk.Eyeballs.{
  is_valid, is_6, some, Addr, Race, never, resolution_delay, Event, delay_over, failure, goes_on,
  prepare, dial_round,
}
use bfx_outline_sdk.Eyeballs.Attempts.{Reach}
use bfx_outline_sdk.Eyeballs.Next.{
  on_ready-Dials, dial_round-delay, prepare-some, resolution_delay-first,
}
use bfx_outline_sdk.Eyeballs.Rounds.{prepare-Kept, Reach-Kept}
use bfx_outline_sdk.Eyeballs.{final_error}
use bfx_outline_sdk.Prelude.{length-nil}

dial_round-end :
    (ev : Event) (s : Race)
    → s.ops_pending ≡ 0
    → dial_round ev s ≡ failure (final_error s.dial_err s.lookup_err)
unfolding dial_round
dial_round-end ev s e = ground arith

none-left :
    {s : Race} → Reach s → s.ops_pending ≡ 0 → (s.ip4s ≡ []) × (s.ip6s ≡ []) × (s.dialing ≡ [])
none-left {s} r z =
    let h = Reach-Kept (λ _. 1) r in
    (
      length-nil s.ip4s (omega (arith, h.counted)),
      length-nil s.ip6s (omega (arith, h.counted)),
      length-nil s.dialing (omega (arith, h.counted)),
    )

all_failed :
    {s : Race} → Reach s → s.ops_pending ≡ 0 → (f : Addr → ℕ) → total f s.found ≡ total f s.failed
all_failed {s} r z f =
    let k = Reach-Kept f r in
    let (e4, e6, d) = none-left r z in
    omega (arith, k.all_found, k.all_tried, ap (total f) e4, ap (total f) e6, ap (total f) d)

dial_error-first :
    {s : Race} → Reach s → s.ops_pending ≡ 0 → (s.found ≡ []) ⊎ (is_some s.dial_err ≡ true)
dial_error-first {s} r z = elim (Reach-Kept (λ _. 1) r).error_kept [
  | inl e ↦ inl (
      length-nil s.found
        (omega (arith, e, all_failed r z (λ _. 1), total-length s.found, total-length s.failed)))
  | inr e ↦ inr e
]

-- When no operation is pending, the lookups are over, no dial runs, each address that was found was
-- dialled and failed, as often as it was found, and the round returns an error, which is
-- that of the dials if an address was found.
pub Reach-ends :
    {s : Race}
    → Reach s
    → s.ops_pending ≡ 0
    → (s.resolving ≡ false)
      × (s.dialing ≡ [])
      × ((f : Addr → ℕ) → total f s.found ≡ total f s.failed)
      × ((ev : Event) → dial_round ev s ≡ failure (final_error s.dial_err s.lookup_err))
      × ((s.found ≡ []) ⊎ (is_some s.dial_err ≡ true))
Reach-ends {s} r z =
    let h = Reach-Kept (λ _. 1) r in
    (
      ground (arith, h),
      (none-left r z).2,
      all_failed r z,
      λ ev. dial_round-end ev s z,
      dial_error-first r z,
    )

-- While an operation is pending, the select waits for something that will come: the lookups are not
-- over, a dial runs, or the next address can be dialled after a delay.
pub Reach-waits :
    {s : Race}
    → Reach s
    → 0 < s.ops_pending
    → (s.resolving ≡ true) ⊎ (0 < length s.dialing) ⊎ ((prepare s).ready ≢ never)
unfolding prepare
Reach-waits {s} r z = let h = Reach-Kept (λ _. 1) r in ground (arith, h)

-- When there is an address to dial and the delay is over, the loop goes on and dials one: of the only
-- family that is there, or else an IPv6 address if the last dial was not of one (or there was none), and
-- an IPv4 address if it was. The first dial is of IPv6, or after the end of the lookups, or after the
-- resolution delay.
pub Reach-dials :
    {s : Race}
    → Reach s
    → (prepare s).ready ≢ never
    → (a : Addr) × (t : Race) × (dial_round delay_over s ≡ goes_on t)
      × (t.last_dialed ≡ some a)
      × (t.tried ≡ s.tried ++ a ∷ [])
      × (((s.ip6s ≡ []) × (a.is6 ≡ false))
          ⊎ ((s.ip4s ≡ []) × (a.is6 ≡ true))
          ⊎ (a.is6 ≡ not (is_6 s.last_dialed)))
      × ((is_valid s.last_dialed ≡ true)
          ⊎ (a.is6 ≡ true)
          ⊎ (s.resolving ≡ false)
          ⊎ ((prepare s).ready ≡ resolution_delay))
unfolding prepare
Reach-dials {s} r z =
    let h = Reach-Kept (λ _. 1) r in
    let some_left = prepare-some s z in
    let (a, t, e, l, d, x) = on_ready-Dials (prepare s) some_left (prepare-Kept (λ _. 1) s h) in
    (
      a,
      t,
      dial_round-delay s t (omega (arith, h.counted, some_left)) e,
      l,
      d,
      x,
      resolution_delay-first s a h z x,
    )
