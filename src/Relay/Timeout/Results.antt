-- ===== src/Relay/Timeout/Results.antt =====
-- network/packetrelay/timeout_packet_relay.go: what holds of every association, in any interleaving.
use bfx_outline_sdk.Prelude.{
  ℕ, ◌+◌, ◌≡◌, ◌≤◌, ◌<◌, true, false, Option, none, some, List, [], ◌∷◌, All, arith, bit, total, ap,
  refl, ◌⊎◌, inl, inr,
}
use bfx_outline_sdk.Io.{is_some}
use bfx_outline_sdk.Prelude.{Bool-cases}
use bfx_outline_sdk.Relay.Timeout.{Packet, Timed, check_timeout, System, Reach}
use bfx_outline_sdk.Relay.Timeout.Kept.{
  Reach-Kept, By, is_closing, is_crashed, is_checking, in_hand, accepted_total,
}

Option-found : (o : Option ℕ) → is_some o ≡ true → (d : ℕ) × (o ≡ some d)
Option-found none e = ground arith
Option-found (some d) e = (d, refl)

-- The inner sender is closed once at most: the calls of its Close, with the goroutines that are about to
-- make one, are one if the association is closed, and none if it is not. No method of a nil sender is
-- called. And the packets that were accepted are just those that the inner sender was given, with those
-- that the goroutines are about to give it, each as often: whatever the packets are counted by, the sums
-- are equal.
pub Reach-closes_once :
    {timeout n : ℕ} {s : System}
    → Reach timeout n s
    → (s.timed.inner_closes + total is_closing s.threads ≡ bit s.timed.closed)
      × (total is_crashed s.threads ≡ 0)
      × ((g : Packet → ℕ)
          → accepted_total g s.timed.accepted
            ≡ total g s.timed.forwarded + total (in_hand g) s.threads)
Reach-closes_once r = let h = Reach-Kept (λ p. 0) r in (h.once, h.sound, λ g. (Reach-Kept g r).sent)

By-late : (t u k : ℕ) (xs : List (ℕ × Packet)) → t + k ≤ u → By t xs → All (λ x. x.0 + k ≤ u) xs
By-late t u k [] le h = tt
By-late t u k (x ∷ xs) le (h, hs) = (omega arith, By-late t u k xs le hs)

-- If the timeout closed the association, it is closed, and no packet was accepted in the time of the
-- timeout before, nor later.
pub Reach-expired :
    {timeout n : ℕ} {s : System}
    → Reach timeout n s
    → (t : ℕ) → s.timed.expired ≡ some t
    → (s.timed.closed ≡ true) × (t ≤ s.timed.now) × All (λ x. x.0 + timeout ≤ t) s.timed.accepted
Reach-expired {timeout} {n} {s} r t e =
    let h = Reach-Kept (λ p. 0) r in
    let (past, late) = h.expired_late t e in
    (
      h.expired_closed t e,
      past,
      By-late s.timed.last_activity t timeout s.timed.accepted late h.recent,
    )

check_timeout-closes :
    (s : Timed) → s.last_activity + s.timeout ≤ s.now → (check_timeout s).0.closed ≡ true
unfolding check_timeout
check_timeout-closes s le = ground arith

-- An open association that was idle for the time of the timeout is about to be closed: a goroutine is in
-- checkTimeout or the timer is due to start one, and checkTimeout closes the association.
pub Reach-expires :
    {timeout n : ℕ} {s : System}
    → Reach timeout n s
    → s.timed.closed ≡ false
    → s.timed.last_activity + timeout ≤ s.timed.now
    → ((0 < total is_checking s.threads) ⊎ ((d : ℕ) × (s.timed.timer ≡ some d) × (d ≤ s.timed.now)))
      × ((check_timeout s.timed).0.closed ≡ true)
Reach-expires {timeout} {n} {s} r c le =
    let h = Reach-Kept (λ p. 0) r in
    (
      elim (Bool-cases (is_some s.timed.timer)) [
        | inl e ↦ let (d, f) = Option-found s.timed.timer e in inr (d, f, omega (arith, h.due d f))
        | inr e ↦ inl (omega (arith, h.armed c, ap bit e))
      ],
      check_timeout-closes s.timed (omega (arith, h.constant)),
    )
