-- ===== src/Smart/Racer.antt =====
-- x/smart/racer.go. Time is left open: maxWait is over at any time. An entry stands for its index; what
-- its test gives comes as an event.
pub mod Reached
pub mod Run
use bfx_outline_sdk.Prelude.{
  ℕ, suc, ◌-◌, ◌≡◌, ◌==◌, ltb, not, Bool, true, false, List, [], ◌∷◌, ◌++◌, if◌then◌else◌,
}
use bfx_outline_sdk.Io.{GoError, message}

-- The variables of raceTests, with the number of entries. `waiting` tells whether waitCh is not nil, and
-- `running` are the tests whose result was not received; `begun` and `failed` are kept for the statements:
-- the tests that were started, and those of which an error was received.
pub record TestRace : Type 0 where
  pub entries : ℕ
  pub next : ℕ
  pub to_test : ℕ
  pub waiting : Bool
  pub running : List ℕ
  pub begun : List ℕ
  pub failed : List ℕ

unfoldable pub new_test_race : ℕ → TestRace
new_test_race n = record {
  entries = n;
  next = 0;
  to_test = n;
  waiting = true;
  running = [];
  begun = [];
  failed = [];
}

-- What comes at the select: the end of the wait, the result of the test at a place in `running`, or the
-- end of the context.
pub data RaceEvent (R : Type 0) : Type 0 where
  wait_over : RaceEvent R
  test_failed : (before after : List ℕ) → ℕ → GoError → RaceEvent R
  test_passed : (before after : List ℕ) → ℕ → R → RaceEvent R
  race_cancelled : GoError → RaceEvent R

pub data RaceResult (R : Type 0) : Type 0 where
  found : ℕ → R → RaceResult R
  race_failed : GoError → RaceResult R
  races_on : TestRace → RaceResult R
  out_of_range : RaceResult R

module _ {R : Type 0} where
  -- The next test is started; entries[index] panics out of range.
  unfoldable pub start_test : TestRace → RaceResult R
  start_test s =
      if ltb s.next s.entries
      then races_on (record s {
        next = suc s.next;
        waiting = not (suc s.next == s.entries);
        running = s.running ++ s.next ∷ [];
        begun = s.begun ++ s.next ∷ [];
      })
      else out_of_range

  -- The select.
  unfoldable pub select_race : RaceEvent R → TestRace → RaceResult R
  select_race wait_over s = start_test s
  select_race (test_failed before after i e) s =
      races_on (record s {
        to_test = s.to_test - 1;
        running = before ++ after;
        failed = s.failed ++ i ∷ [];
      })
  select_race (test_passed before after i r) s = found i r
  select_race (race_cancelled e) s = race_failed e

  -- One round of the loop.
  unfoldable pub race_round : RaceEvent R → TestRace → RaceResult R
  race_round e s =
      let next = select_race e s in
      if s.to_test == 0 then race_failed (message "all tests failed") else next

  -- Which events the select can see.
  abbrev pub CanCome : RaceEvent R → TestRace → Type 0
  CanCome wait_over s = s.waiting ≡ true
  CanCome (test_failed before after i e) s = s.running ≡ before ++ i ∷ after
  CanCome (test_passed before after i r) s = s.running ≡ before ++ i ∷ after
  CanCome (race_cancelled e) s = Unit

-- The states that a race of `n` tests reaches.
pub data Reach (R : Type 0) (n : ℕ) : TestRace → Type 0 where
  start : Reach R n (new_test_race n)
  later :
      {s t : TestRace}
      → Reach R n s
      → (e : RaceEvent R) → CanCome e s
      → race_round e s ≡ races_on t
      → Reach R n t
