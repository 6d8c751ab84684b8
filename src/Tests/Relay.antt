-- ===== src/Tests/Relay.antt =====
-- Tests and instances for the packet relays.
use bfx_outline_sdk.Prelude.{
  ℕ, ◌+◌, ◌≡◌, ◌≤◌, ◌<◌, true, false, none, some, [], ◌∷◌, total, refl, ◌⊎◌, arith, All,
}
use bfx_outline_sdk.Relay.Timeout.{
  Packet, idle, checking, forwarding, closing, send, shut, new_timed, send_packet, check_timeout,
  step, System, turn, tick, fire, Reach, start, later,
}
use bfx_outline_sdk.Relay.Timeout.Kept.{
  is_closing, is_crashed, is_checking, in_hand, accepted_total,
}
use bfx_outline_sdk.Relay.Timeout.Results.{Reach-closes_once, Reach-expired, Reach-expires}

abbrev packet : Packet
packet = (1 ∷ [], record { addr = 8 ∷ []; port = 53 })

-- One goroutine, and a timeout of two.
abbrev begun : System
begun = record { timed = new_timed 2 10; threads = idle none ∷ [] }

abbrev sent : System
sent = record {
  timed = record (new_timed 2 10) { now = 11; last_activity = 11; accepted = (11, packet) ∷ [] };
  threads = forwarding packet ∷ [];
}

-- The timer fires at 12, one after the packet, so checkTimeout sets it again.
abbrev fired : System
fired = record {
  timed = record sent.timed { now = 12; timer = none };
  threads = checking ∷ forwarding packet ∷ [];
}

abbrev again : System
again = record {
  timed = record fired.timed { timer = some 13 };
  threads = idle none ∷ forwarding packet ∷ [];
}

abbrev due : System
due = record { timed = record again.timed { now = 13 }; threads = again.threads }

abbrev late : System
late = record { timed = record due.timed { timer = none }; threads = checking ∷ due.threads }

abbrev over : System
over = record {
  timed = record late.timed { closed = true; has_inner = false; expired = some 13 };
  threads = closing ∷ due.threads;
}

reach_sent : Reach 2 1 sent
unfolding new_timed step send_packet
reach_sent = later (later (start 10) tick) (turn [] [] (idle none) (send packet) none refl)

reach_due : Reach 2 1 due
unfolding new_timed step check_timeout
reach_due =
    let f : Reach 2 1 fired = later (later reach_sent tick) (fire 12 refl (omega arith)) in
    let a : Reach 2 1 again = later f (turn [] (forwarding packet ∷ []) checking shut none refl) in
    later a tick

reach_over : Reach 2 1 over
unfolding new_timed step check_timeout
reach_over =
    let l : Reach 2 1 late = later reach_due (fire 13 refl (omega arith)) in
    later l (turn [] due.threads checking shut none refl)

Reach-closes_once_example :
    (over.timed.inner_closes + total is_closing over.threads ≡ 1)
    × (total is_crashed over.threads ≡ 0)
    × ((g : Packet → ℕ)
        → accepted_total g over.timed.accepted
          ≡ total g over.timed.forwarded + total (in_hand g) over.threads)
Reach-closes_once_example = Reach-closes_once reach_over

Reach-expired_example :
    (over.timed.closed ≡ true) × (13 ≤ over.timed.now) × All (λ x. x.0 + 2 ≤ 13) over.timed.accepted
unfolding new_timed
Reach-expired_example = Reach-expired reach_over 13 refl

Reach-expires_example :
    ((0 < total is_checking due.threads)
      ⊎ ((d : ℕ) × (due.timed.timer ≡ some d) × (d ≤ due.timed.now)))
    × ((check_timeout due.timed).0.closed ≡ true)
unfolding new_timed
Reach-expires_example = Reach-expires reach_due refl (omega arith)
