-- ===== src/Tests/Strategy.antt =====
-- Tests and instances for the race of tests and the strategies of the smart dialer.
use bfx_outline_sdk.Prelude.{ℕ, ◌≡◌, ◌<◌, Bool, false, none, some, [], ◌∷◌, ◌⊎◌, refl, total, ◌==◌}
use bfx_outline_sdk.Io.{eof, message}
use bfx_outline_sdk.Smart.Racer.{
  TestRace, new_test_race, RaceEvent, wait_over, test_failed, race_failed, start_test, select_race,
  race_round, Reach, start, later,
}
use bfx_outline_sdk.Smart.Racer.Reached.{FailsCancelled, Reach-all_failed, indices}
use bfx_outline_sdk.Smart.Cache.{move_to_front}
use bfx_outline_sdk.Smart.Strategy.{Config, promote_to_front}
use bfx_outline_sdk.Smart.Strategy.Promotes.{Promoted, promote_to_front-Promotes}

abbrev one : TestRace
one = record (new_test_race 1) { next = 1; waiting = false; running = 0 ∷ []; begun = 0 ∷ [] }

reach_one : Reach ℕ 1 one
unfolding new_test_race race_round select_race start_test
reach_one = later start wait_over refl refl

abbrev over : TestRace
over = record one { to_test = 0; running = []; failed = 0 ∷ [] }

reach_over : Reach ℕ 1 over
unfolding new_test_race race_round select_race
reach_over = later reach_one (test_failed [] [] 0 eof) refl refl

Reach-all_failed_example :
    ((0 < over.to_test) × ((e : RaceEvent ℕ) → FailsCancelled e (race_round e over)))
    ⊎ ((over.to_test ≡ 0)
        × (over.begun ≡ indices 1)
        × (over.running ≡ [])
        × ((f : ℕ → ℕ) → total f over.failed ≡ total f (indices 1))
        × ((e : RaceEvent ℕ) → race_round e over ≡ race_failed (message "all tests failed")))
unfolding new_test_race
Reach-all_failed_example = Reach-all_failed reach_over

abbrev Conf : Type 0
Conf = Config ℕ ℕ

abbrev same : ℕ → ℕ → Bool
same a b = a == b

abbrev input : Conf
input = record {
  dns = 1 ∷ 2 ∷ 3 ∷ [];
  tls = "split:1" ∷ "tlsfrag:1" ∷ [];
  fallback = some (7 ∷ 8 ∷ []);
}

abbrev winner : Conf
winner = record { dns = 3 ∷ []; tls = "tlsfrag:1" ∷ []; fallback = none }

promoted : (promote_to_front same same winner input).dns ≡ 3 ∷ 1 ∷ 2 ∷ []
unfolding promote_to_front move_to_front
promoted = refl

promote_to_front-Promotes_example :
    Promoted (λ e. same e 3) input.dns (promote_to_front same same winner input).dns
    × Promoted
        (λ e. text.Mathlib.Text.◌==◌ e "tlsfrag:1")
        input.tls
        (promote_to_front same same winner input).tls
    × ((promote_to_front same same winner input).fallback ≡ input.fallback)
promote_to_front-Promotes_example =
    promote_to_front-Promotes same same winner input 3 "tlsfrag:1" refl refl
