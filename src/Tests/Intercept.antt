-- ===== src/Tests/Intercept.antt =====
-- Tests and instances for the DNS interception relay.
use bfx_outline_sdk.Prelude.{
  ◌⊎◌, ℕ, zero, suc, ◌+◌, ◌≡◌, ◌≤◌, ◌<◌, ◌++◌, none, some, Option, [], ◌∷◌, refl, List, true, false,
  Bool, ap,
}
use bfx_outline_sdk.Io.{Bytes, external}
use bfx_outline_sdk.Truncate.{AddrPort}
use bfx_outline_sdk.Intercept.{
  is_sender, default_creating, default_waiting, Pc, idle, releasing, is_same_addr_port, release,
  close, close_locked, begin_query, register, remove_dns_sender, get_default, wake, install_default,
  install_failure, start_receiving,
}
use bfx_outline_sdk.Intercept.Threads.{
  Answer, Call, send, receive, System, turn, Reach, start, later, step, begin_call, send_packet,
  answer_first, select_receiver,
}
use bfx_outline_sdk.Intercept.Counts.{weight, crashes, filled}
use bfx_outline_sdk.Intercept.Senders.{holds}
use bfx_outline_sdk.Intercept.Safety.{sum_over}
use bfx_outline_sdk.Intercept.Wakes.{asleep}
use bfx_outline_sdk.Intercept.Shutdown.{finish}
use bfx_outline_sdk.Intercept.Reached.{Reach-counted, Reach-no_leak, Reach-finish}

abbrev local : AddrPort
local = record { addr = 10 ∷ 0 ∷ 0 ∷ 1 ∷ []; port = 53 }

abbrev remote : AddrPort
remote = record { addr = 8 ∷ 8 ∷ 8 ∷ 8 ∷ []; port = 53 }

abbrev elsewhere : AddrPort
elsewhere = record { addr = 1 ∷ 2 ∷ 3 ∷ 4 ∷ []; port = 443 }

abbrev unmap : Bytes → Bytes
unmap p = p

abbrev answer : Call → Bool → Answer
answer c b = record { call = c; good = b; bytes = 7 ∷ []; err = external 0 }

abbrev granted : Answer
granted = answer receive true

abbrev refused : Answer
refused = answer receive false

-- The goroutine with an index.
abbrev Place : List Pc → Type 0
Place ts = (before : List Pc) × (p : Pc) × (after : List Pc) × (ts ≡ before ++ p ∷ after)

find : ℕ → (ts : List Pc) → Option (Place ts)
find i [] = none
find zero (p ∷ ts) = some ([], p, ts, refl)
find (suc i) (q ∷ ts) = elim (find i ts) [
  | none ↦ none
  | some (before, p, after, e) ↦ some (q ∷ before, p, after, ap (◌∷◌ q) e)
]

abbrev Got : ℕ → Type 0
Got n = (s : System) × Reach unmap local remote n s

advance : {n : ℕ} → Got n → ℕ → Answer → Got n
unfolding find
advance (s, r) i o = elim (find i s.threads) [
  | none ↦ (s, r)
  | some (before, p, after, e) ↦ (_, later r (turn before after p o e))
]

schedule : {n : ℕ} → Got n → List (ℕ × Answer) → Got n
unfolding advance
schedule g [] = g
schedule g ((i, o) ∷ turns) = schedule (advance g i o) turns

-- One goroutine sends a query to the end of its receiver; before its Release another has begun to
-- make the default sub-association.
abbrev overlap : Got 2
unfolding schedule
overlap =
    schedule (_, start)
      ((0, answer (send (1 ∷ []) local) true)
        ∷ (0, granted)
        ∷ (0, granted)
        ∷ (0, granted)
        ∷ (0, granted)
        ∷ (1, answer (send (2 ∷ []) elsewhere) true)
        ∷ (1, granted)
        ∷ (0, refused)
        ∷ (0, refused)
        ∷ (0, refused)
        ∷ [])

overlap_runs :
    (overlap.0.assoc.active_count ≡ 1)
    × (overlap.0.assoc.is_closed ≡ false)
    × (overlap.0.threads ≡ releasing ∷ default_creating (2 ∷ []) elsewhere ∷ [])
unfolding overlap step begin_call send_packet is_same_addr_port begin_query register
    remove_dns_sender get_default wake release close close_locked install_default install_failure
    start_receiving answer_first select_receiver
overlap_runs = (refl, refl, refl)

-- The Release of the query closes the parent, and the packet of the other goroutine is lost: nobody
-- has called Close.
abbrev cut_short : Got 2
unfolding schedule
cut_short = schedule overlap ((0, granted) ∷ (1, granted) ∷ (1, granted) ∷ [])

cut_short_runs :
    (cut_short.0.assoc.is_closed ≡ true)
    × (cut_short.0.assoc.closed_sender 1 ≡ true)
    × (cut_short.0.threads ≡ idle ∷ idle ∷ [])
unfolding overlap cut_short step begin_call send_packet is_same_addr_port begin_query register
    remove_dns_sender get_default wake release close close_locked install_default install_failure
    start_receiving answer_first select_receiver
cut_short_runs = (refl, refl, refl)

Reach-counted_example :
    (overlap.0.assoc.active_count
      ≡ sum_over overlap.0.threads weight + filled overlap.0.assoc.def_receiver)
    × (overlap.0.assoc.default_calls ≤ 1)
    × (sum_over overlap.0.threads crashes ≡ 0)
Reach-counted_example = Reach-counted unmap local remote overlap.1

closed_after : cut_short.0.assoc.is_closed ≡ true
closed_after = cut_short_runs.0

Reach-no_leak_example :
    ((cut_short.0.assoc.next_sender ≤ 1)
      ⊎ (0 < sum_over cut_short.0.threads (holds 1))
      ⊎ (cut_short.0.assoc.closed_sender 1 ≡ true))
    × ((cut_short.0.assoc.dns_senders 1 ≡ false) ⊎ (cut_short.0.assoc.closed_sender 1 ≡ true))
    × ((is_sender 1 cut_short.0.assoc.def_sender ≡ false)
        ⊎ (cut_short.0.assoc.closed_sender 1 ≡ true))
Reach-no_leak_example = Reach-no_leak unmap local remote cut_short.1 1 closed_after

release_closes : (step unmap local remote overlap.0.assoc releasing granted).0.is_closed ≡ true
unfolding overlap step begin_call send_packet is_same_addr_port begin_query register
    remove_dns_sender get_default wake release close close_locked install_default install_failure
    start_receiving answer_first select_receiver
release_closes = refl

-- A third goroutine waits for the default sub-association, and the Release wakes it.
abbrev waited : Got 3
unfolding schedule
waited =
    schedule (_, start)
      ((0, answer (send (1 ∷ []) local) true)
        ∷ (0, granted)
        ∷ (0, refused)
        ∷ (1, answer (send (2 ∷ []) elsewhere) true)
        ∷ (1, granted)
        ∷ (2, answer (send (3 ∷ []) elsewhere) true)
        ∷ (2, granted)
        ∷ (2, granted)
        ∷ (0, granted)
        ∷ [])

abbrev waiter : Pc
waiter = default_waiting (3 ∷ []) elsewhere 0

waited_runs :
    (waited.0.assoc.is_closed ≡ true)
    × (waited.0.assoc.broadcasts ≡ 1)
    × (waited.0.threads ≡ idle ∷ default_creating (2 ∷ []) elsewhere ∷ waiter ∷ [])
unfolding overlap waited step begin_call send_packet is_same_addr_port begin_query register
    remove_dns_sender get_default wake release close close_locked install_default install_failure
    start_receiving answer_first select_receiver
waited_runs = (refl, refl, refl)

Reach-finish_example :
    (waited.0.assoc.chan_closes ≡ 1)
    × (sum_over waited.0.threads (asleep waited.0.assoc.broadcasts) ≡ 0)
    × ((finish unmap local remote 5 refused waited.0.assoc waiter).1 ≡ idle)
Reach-finish_example =
    Reach-finish unmap local remote (idle ∷ default_creating (2 ∷ []) elsewhere ∷ []) [] waiter
      refused waited.1 waited_runs.2 waited_runs.0 refl
