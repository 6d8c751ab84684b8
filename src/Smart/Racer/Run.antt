-- ===== src/Smart/Racer/Run.antt =====
-- raceTests of x/smart/racer.go as a whole: a race from its start to what it returns, in an order of
-- events that is given, and what it finds.
use bfx_outline_sdk.Prelude.{
  ℕ, zero, suc, ◌≡◌, ◌==◌, ltb, Bool, true, false, Option, none, some, List, [], ◌∷◌, ◌++◌,
  if◌then◌else◌, length, Bool-cases, refl, ap, ◌∙◌, sym, inl, inr, subst,
}
use bfx_outline_sdk.Io.{GoError, Fallible, message}
use bfx_outline_sdk.Smart.Racer.{
  TestRace, new_test_race, RaceEvent, wait_over, test_failed, test_passed, race_cancelled,
  RaceResult, found, race_failed, races_on, out_of_range, start_test, select_race, race_round,
}

-- What comes next at the select: the wait is over, the result of the test at a place among those that
-- run, or the context ends. One that cannot come is passed over.
pub data Turn : Type 0 where
  waited : Turn
  answered : ℕ → Turn
  ended : GoError → Turn

-- The order of a race: the turns, and the error of the context, which ends behind them.
pub record Order : Type 0 where
  pub turns : List Turn
  pub last : GoError

abbrev pub entry_at : {E : Type 0} → List E → ℕ → Option E
entry_at [] i = none
entry_at (e ∷ es) zero = some e
entry_at (e ∷ es) (suc i) = entry_at es i

module _ {E R : Type 0} (entries : List E) (test : E → Fallible R) where
  -- The result of the test with an index.
  abbrev pub test_at : Option E → Fallible R
  test_at none = inl (message "no such entry")
  test_at (some e) = test e

  abbrev pub result_event : List ℕ → List ℕ → ℕ → Fallible R → RaceEvent R
  result_event before after i (inl e) = test_failed before after i e
  result_event before after i (inr r) = test_passed before after i r

  -- The result of the test at the place `k` behind `before`.
  abbrev pub result_at : ℕ → List ℕ → List ℕ → Option (RaceEvent R)
  result_at k before [] = none
  result_at zero before (i ∷ after) =
      some (result_event before after i (test_at (entry_at entries i)))
  result_at (suc k) before (i ∷ after) = result_at k (before ++ i ∷ []) after

  abbrev pub event : Turn → TestRace → Option (RaceEvent R)
  event waited s = if s.waiting then some wait_over else none
  event (answered k) s = result_at k [] s.running
  event (ended e) s = some (race_cancelled e)

  -- What a round leads to. entries[index] out of range would panic; no race comes to that.
  abbrev pub settle : (TestRace → Fallible R) → RaceResult R → Fallible R
  settle go_on (found i r) = inr r
  settle go_on (race_failed e) = inl e
  settle go_on (races_on s) = go_on s
  settle go_on out_of_range = inl (message "index out of range")

  abbrev pub take_turn : (TestRace → Fallible R) → TestRace → Option (RaceEvent R) → Fallible R
  take_turn go_on s none = go_on s
  take_turn go_on s (some e) = settle go_on (race_round e s)

  -- The loop.
  unfoldable pub run_race : List Turn → GoError → TestRace → Fallible R
  run_race [] last s = settle (λ s. inl last) (race_round (race_cancelled last) s)
  run_race (t ∷ ts) last s = take_turn (run_race ts last) s (event t s)

  unfoldable pub race_tests : Order → Fallible R
  race_tests order = run_race order.turns order.last (new_test_race (length entries))

  -- An entry whose test gave `r`.
  abbrev pub Found : R → Type 0
  Found r = (i : ℕ) × (e : E) × (entry_at entries i ≡ some e) × (test e ≡ inr r)

  -- The event of a test that passed is that of an entry.
  abbrev Genuine : RaceEvent R → Type 0
  Genuine (test_passed before after i r) = Found r
  Genuine _ = Unit {0}

  AllGenuine : Option (RaceEvent R) → Type 0
  AllGenuine none = Unit {0}
  AllGenuine (some e) = Genuine e

  passed_at : (i : ℕ) (o : Option E) (r : R) → entry_at entries i ≡ o → test_at o ≡ inr r → Found r
  passed_at i none r at t = absurd (cc t)
  passed_at i (some e) r at t = (i, e, at, t)

  result-Genuine :
      (before after : List ℕ) (i : ℕ) (x : Fallible R)
      → test_at (entry_at entries i) ≡ x
      → Genuine (result_event before after i x)
  result-Genuine before after i (inl e) t = tt
  result-Genuine before after i (inr r) t = passed_at i (entry_at entries i) r refl t

  result_at-Genuine : (k : ℕ) (before rest : List ℕ) → AllGenuine (result_at k before rest)
  unfolding AllGenuine
  result_at-Genuine k before [] = tt
  result_at-Genuine zero before (i ∷ after) =
      result-Genuine before after i (test_at (entry_at entries i)) refl
  result_at-Genuine (suc k) before (i ∷ after) = result_at-Genuine k (before ++ i ∷ []) after

  wait-Genuine : (b : Bool) → AllGenuine (if b then some wait_over else none)
  unfolding AllGenuine
  wait-Genuine true = tt
  wait-Genuine false = tt

  event-Genuine : (t : Turn) (s : TestRace) → AllGenuine (event t s)
  unfolding AllGenuine
  event-Genuine waited s = wait-Genuine s.waiting
  event-Genuine (answered k) s = result_at-Genuine k [] s.running
  event-Genuine (ended e) s = tt

  -- What goes on finds only what a test gave.
  abbrev Finds : (TestRace → Fallible R) → Type 0
  Finds go_on = (s : TestRace) (r : R) → go_on s ≡ inr r → Found r

  select-Found :
      (go_on : TestRace → Fallible R) (e : RaceEvent R) (s : TestRace) (r : R)
      → Finds go_on
      → Genuine e
      → settle go_on (select_race e s) ≡ inr r
      → Found r
  unfolding select_race start_test
  select-Found go_on wait_over s r h g eq =
      let t : TestRace = record s {
        next = suc s.next;
        waiting = bfx_outline_sdk.Prelude.not (suc s.next == s.entries);
        running = s.running ++ s.next ∷ [];
        begun = s.begun ++ s.next ∷ [];
      } in
      let branch : Bool → Fallible R = λ b. settle go_on (if b then races_on t else out_of_range) in
      elim (Bool-cases (ltb s.next s.entries)) [
        | inl y ↦ h t r (sym (ap branch y) ∙ eq)
        | inr n ↦ absurd (cc (sym (ap branch n) ∙ eq))
      ]
  select-Found go_on (test_failed before after i e) s r h g eq = h _ r eq
  select-Found go_on (test_passed before after i x) s r h g eq =
      let same : x ≡ r = cc eq in subst Found same g
  select-Found go_on (race_cancelled e) s r h g eq = absurd (cc eq)

  round-Found :
      (go_on : TestRace → Fallible R) (e : RaceEvent R) (s : TestRace) (r : R)
      → Finds go_on
      → Genuine e
      → settle go_on (race_round e s) ≡ inr r
      → Found r
  unfolding race_round
  round-Found go_on e s r h g eq =
      let branch : Bool → Fallible R = λ b.
        settle go_on (if b then race_failed (message "all tests failed") else select_race e s) in
      elim (Bool-cases (s.to_test == 0)) [
        | inl y ↦ absurd (cc (sym (ap branch y) ∙ eq))
        | inr n ↦ select-Found go_on e s r h g (sym (ap branch n) ∙ eq)
      ]

  turn-Found :
      (go_on : TestRace → Fallible R) (o : Option (RaceEvent R)) (s : TestRace) (r : R)
      → Finds go_on
      → AllGenuine o
      → take_turn go_on s o ≡ inr r
      → Found r
  unfolding AllGenuine
  turn-Found go_on none s r h g eq = h s r eq
  turn-Found go_on (some e) s r h g eq = round-Found go_on e s r h g eq

  run_race-Found : (ts : List Turn) (last : GoError) → Finds (run_race ts last)
  unfolding run_race
  run_race-Found [] last s r eq =
      round-Found (λ s. inl last) (race_cancelled last) s r (λ s r e. absurd (cc e)) tt eq
  run_race-Found (t ∷ ts) last s r eq =
      turn-Found (run_race ts last) (event t s) s r (run_race-Found ts last) (event-Genuine t s) eq

  -- What a race finds is what the test of one of its entries gave.
  pub race_tests-Found : (order : Order) (r : R) → race_tests order ≡ inr r → Found r
  unfolding race_tests
  race_tests-Found order r eq = run_race-Found order.turns order.last _ r eq
