-- ===== src/Tests/Eyeballs.antt =====
-- Tests and instances for the happy eyeballs dialer.
use bfx_outline_sdk.Prelude.{
  ◌≤◌, ◌↔◌, inr, total, ◌↔◌, ℕ, ◌+◌, ◌*◌, ◌≡◌, ◌≢◌, ◌<◌, none, some, [], ◌∷◌, length, refl, List,
  true, false, ◌⊎◌, not, arith,
}
use bfx_outline_sdk.Io.{external, is_some}
use bfx_outline_sdk.Socks5.Address.{Net}
use bfx_outline_sdk.Eyeballs.{
  is_6, is_valid, begin_dial, dial_host, Addr, Race, new_race, never, resolution_delay,
  attempt_delay, Event, looked_up, lookups_done, delay_over, dial_failed, dialed, Result, connected,
  failure, goes_on, prepare, on_lookup, on_lookup_done, on_ready, on_dial_error, handle, dial_round,
}
use bfx_outline_sdk.Eyeballs.Attempts.{Reach, start, later}
use bfx_outline_sdk.Eyeballs.Results.{Reach-ends, Reach-dials}
use bfx_outline_sdk.Eyeballs.Bound.{Reach-rounds, rounds, lookups}
use bfx_outline_sdk.Eyeballs.Resolve.{
  Resolution, new_results, lookup_step, write_result, resolving, sending, ending,
}
use bfx_outline_sdk.Eyeballs.Lookups.{is_unsent, Pool, turn, is_running, Reach-lookups}
use bfx_outline_sdk.Eyeballs.Lookups

abbrev v4 : Addr
v4 = record { is6 = false; bytes = 1 ∷ [] }

abbrev v6 : Addr
v6 = record { is6 = true; bytes = 2 ∷ [] }

-- Rounds of a race, until one returns.
abbrev next : Event → Result → Result
next e (goes_on s) = dial_round e s
next e r = r

abbrev run_on : List Event → Result → Result
run_on [] r = r
run_on (e ∷ es) r = run_on es (next e r)

abbrev run : List Event → Race → Result
run es s = run_on es (goes_on s)

all_fail :
    run
      (looked_up (v4 ∷ []) none
        ∷ looked_up [] (some (external 9))
        ∷ lookups_done
        ∷ delay_over
        ∷ dial_failed [] [] v4 (external 1)
        ∷ lookups_done
        ∷ [])
      new_race
    ≡ failure (external 1)
unfolding dial_round handle prepare on_lookup on_lookup_done on_ready on_dial_error
all_fail = refl

no_ips :
    run (looked_up [] (some (external 9)) ∷ lookups_done ∷ lookups_done ∷ []) new_race
    ≡ failure (external 9)
unfolding dial_round handle prepare on_lookup on_lookup_done on_ready on_dial_error
no_ips = refl

-- IPv6 first, though it came second; then IPv4.
alternates :
    run
      (looked_up (v4 ∷ []) none
        ∷ looked_up (v6 ∷ v6 ∷ []) none
        ∷ delay_over
        ∷ delay_over
        ∷ dialed (v6 ∷ []) [] v4
        ∷ [])
      new_race
    ≡ connected v4
unfolding dial_round handle prepare on_lookup on_lookup_done on_ready on_dial_error
alternates = refl

abbrev found_one : Race
found_one = record new_race { ops_pending = 2; ip4s = v4 ∷ []; found = v4 ∷ [] }

looked : Reach found_one
unfolding dial_round handle prepare on_lookup
looked = later start (looked_up (v4 ∷ []) none) refl refl

abbrev resolved : Race
resolved = record found_one { ops_pending = 1; resolving = false; ready = resolution_delay }

done : Reach resolved
unfolding dial_round handle prepare on_lookup_done
done = later looked lookups_done refl refl

abbrev one_dialing : Race
one_dialing = record resolved {
  ip4s = [];
  ready = attempt_delay;
  last_dialed = some v4;
  dialing = v4 ∷ [];
  tried = v4 ∷ [];
}

tried_one : Reach one_dialing
unfolding dial_round handle prepare on_ready
tried_one = later done delay_over (ground arith) refl

abbrev one_failed : Race
one_failed = record one_dialing {
  ops_pending = 0;
  ready = never;
  dialing = [];
  dial_err = some (external 1);
  failed = v4 ∷ [];
}

failed_one : Reach one_failed
unfolding dial_round handle prepare on_dial_error
failed_one = later tried_one (dial_failed [] [] v4 (external 1)) refl refl

Reach-ends_example :
    (one_failed.resolving ≡ false)
    × (one_failed.dialing ≡ [])
    × ((f : Addr → ℕ) → total f one_failed.found ≡ total f one_failed.failed)
    × ((ev : Event) → dial_round ev one_failed ≡ failure (external 1))
    × ((one_failed.found ≡ []) ⊎ (is_some one_failed.dial_err ≡ true))
Reach-ends_example = Reach-ends failed_one refl

prepared : (prepare found_one).ready ≢ never
unfolding prepare
prepared = ground arith

Reach-dials_example :
    (a : Addr) × (t : Race) × (dial_round delay_over found_one ≡ goes_on t)
    × (t.last_dialed ≡ some a)
    × (t.tried ≡ a ∷ [])
    × (((found_one.ip6s ≡ []) × (a.is6 ≡ false))
        ⊎ ((found_one.ip4s ≡ []) × (a.is6 ≡ true))
        ⊎ (a.is6 ≡ not (is_6 found_one.last_dialed)))
    × ((is_valid found_one.last_dialed ≡ true)
        ⊎ (a.is6 ≡ true)
        ⊎ (found_one.resolving ≡ false)
        ⊎ ((prepare found_one).ready ≡ resolution_delay))
Reach-dials_example = Reach-dials looked prepared

abbrev no_addresses : List Addr
no_addresses = []

Reach-rounds_example :
    (rounds failed_one + 0 ≡ 1 + lookups failed_one + 2 * 1)
    × (rounds failed_one ≤ 1 + lookups failed_one + 2 * 1)
    × ((rounds failed_one ≡ 1 + lookups failed_one + 2 * 1)
        ↔ ((false ≡ false) × (no_addresses ≡ []) × (no_addresses ≡ []) × (no_addresses ≡ [])))
Reach-rounds_example = Reach-rounds failed_one

abbrev answer : Resolution
answer = record { ips = v4 ∷ []; err = none }

abbrev sent_one : Pool
sent_one = record {
  results = record (new_results 2) { buffer = answer ∷ []; sent = answer ∷ [] };
  lookups = resolving ∷ ending ∷ [];
}

two_lookups : Lookups.Reach 2 sent_one
unfolding new_results lookup_step write_result
two_lookups =
    let one = Lookups.later Lookups.start (turn (resolving ∷ []) [] resolving answer refl) in
    Lookups.later one (turn (resolving ∷ []) [] (sending answer) answer refl)

Reach-lookups_example :
    (sent_one.results.panicked ≡ false)
    × ((total is_unsent sent_one.lookups ≡ 0)
        ⊎ (length sent_one.results.buffer < sent_one.results.capacity))
    × ((sent_one.results.is_closed ≡ true) ↔ (total is_running sent_one.lookups ≡ 0))
    × (length sent_one.results.sent + total is_unsent sent_one.lookups ≡ 2)
Reach-lookups_example = Reach-lookups two_lookups

-- "a:8" is raced, since "a" is no IP address.
begins :
    (net : Net)
    → net.split_host_port (97 ∷ 58 ∷ 56 ∷ []) ≡ inr (97 ∷ [], 56 ∷ [])
    → net.parse_ip (97 ∷ []) ≡ none
    → begin_dial net (97 ∷ 58 ∷ 56 ∷ []) ≡ inr (dial_host (97 ∷ []) (56 ∷ []))
unfolding begin_dial
begins net s p = rw (s, p) refl
