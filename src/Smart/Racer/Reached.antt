-- ===== src/Smart/Racer/Reached.antt =====
-- x/smart/racer.go: what holds of every race of tests.
use bfx_outline_sdk.Prelude.{
  ℕ, zero, suc, ◌+◌, ◌≡◌, ◌≢◌, ◌≤◌, ◌<◌, ◌==◌, ltb, not, Bool, true, false, List, [], ◌∷◌, ◌++◌,
  if◌then◌else◌, length, length-append, length-nil, total, total-append, arith, refl, ap, ◌∙◌, sym,
  subst, ◌⊎◌, inl, inr,
}
use bfx_outline_sdk.Io.{GoError, message}
use bfx_outline_sdk.Smart.Racer.{
  TestRace, new_test_race, RaceEvent, wait_over, test_failed, test_passed, race_cancelled,
  RaceResult, race_failed, races_on, out_of_range, start_test, select_race, race_round, CanCome,
  Reach, start, later,
}

-- The indices below a number, in order.
abbrev pub indices : ℕ → List ℕ
indices zero = []
indices (suc n) = indices n ++ n ∷ []

record Kept (n : ℕ) (f : ℕ → ℕ) (s : TestRace) : Type 0 where
  constant : s.entries ≡ n
  bound : s.next ≤ n
  counted : s.to_test + s.next ≡ n + length s.running
  few : length s.running ≤ s.next
  wait_on : s.waiting ≡ true → (s.next < n) ⊎ (n ≡ 0)
  wait_off : s.waiting ≡ false → s.next ≡ n
  in_order : s.begun ≡ indices s.next
  all_begun : total f s.begun ≡ total f s.running + total f s.failed

-- The state that a result carries.
abbrev race_of : {R : Type 0} → TestRace → RaceResult R → TestRace
race_of d (races_on s) = s
race_of d _ = d

start-Kept : (n : ℕ) (f : ℕ → ℕ) → Kept n f (new_test_race n)
unfolding new_test_race
start-Kept n f = ground arith

module _ {R : Type 0} (n : ℕ) (f : ℕ → ℕ) where
  start_test-Kept :
      (s t : TestRace)
      → start_test {R = R} s ≡ races_on t
      → 0 < s.to_test
      → s.waiting ≡ true
      → Kept n f s
      → Kept n f t
  unfolding start_test
  start_test-Kept s t e z w h =
      let n1 = length-append s.running (s.next ∷ []) in
      let s1 : TestRace = record s {
        next = suc s.next;
        waiting = not (suc s.next == s.entries);
        running = s.running ++ s.next ∷ [];
        begun = s.begun ++ s.next ∷ [];
      } in
      let b : Kept n f s1 = ground (
        arith,
        h,
        n1,
        ap (λ xs. xs ++ s.next ∷ []) h.in_order,
        total-append f s.running (s.next ∷ []),
        total-append f s.begun (s.next ∷ []),
      ) in
      let branch : Bool → RaceResult R = λ c. if c then races_on s1 else out_of_range in
      let go : ltb s.next s.entries ≡ true = ground (arith, h) in
      subst (Kept n f) (ap (race_of s) (sym (ap branch go) ∙ e)) b

  select-Kept :
      (e : RaceEvent R) (s t : TestRace)
      → CanCome e s
      → 0 < s.to_test
      → select_race {R = R} e s ≡ races_on t
      → Kept n f s
      → Kept n f t
  unfolding select_race
  select-Kept wait_over s t c z e h = start_test-Kept s t e z c h
  select-Kept (test_failed before after i x) s t c z e h = subst (Kept n f) (ap (race_of s) e) (
      ground (
        arith,
        h,
        ap (total f) c,
        ap length c,
        total-append f before (i ∷ after),
        total-append f before after,
        length-append before (i ∷ after),
        length-append before after,
        total-append f s.failed (i ∷ []),
      ))
  select-Kept (test_passed before after i r) s t c z e h = ground arith
  select-Kept (race_cancelled x) s t c z e h = ground arith

  round-goes_on :
      (e : RaceEvent R) (s t : TestRace)
      → race_round e s ≡ races_on t
      → (select_race e s ≡ races_on t) × (0 < s.to_test)
  unfolding race_round
  round-goes_on e s t g = ground arith

  Reach-Kept : {s : TestRace} → Reach R n s → Kept n f s
  Reach-Kept start = start-Kept n f
  Reach-Kept (later {s} {t} r e c g) =
      let (go, z) = round-goes_on e s t g in select-Kept e s t c z go (Reach-Kept r)

length-indices : (n : ℕ) → length (indices n) ≡ n
length-indices zero = refl
length-indices (suc n) = omega (arith, length-append (indices n) (n ∷ []), length-indices n)

zero_or_more : (n : ℕ) → (n ≡ 0) ⊎ (0 < n)
zero_or_more n = ground arith

module _ {R : Type 0} where
  -- An error is that of a context that ended.
  abbrev pub FailsCancelled : RaceEvent R → RaceResult R → Type 0
  FailsCancelled e r =
      ((x : GoError) × (e ≡ race_cancelled x) × (r ≡ race_failed x))
      ⊎ ((x : GoError) → r ≢ race_failed x)

  starts-in_range :
      (s : TestRace)
      → (s.waiting ≡ true → s.next < s.entries)
      → s.waiting ≡ true
      → race_round {R = R} wait_over s ≢ out_of_range
  unfolding race_round select_race start_test
  starts-in_range s h w = ground (arith, h)

  round-ends :
      (e : RaceEvent R) (s : TestRace)
      → s.to_test ≡ 0
      → race_round e s ≡ race_failed (message "all tests failed")
  unfolding race_round
  round-ends e s z = ground arith

  select-FailsCancelled : (e : RaceEvent R) (s : TestRace) → FailsCancelled e (select_race e s)
  unfolding select_race start_test
  select-FailsCancelled wait_over s = inr (λ x. ground arith)
  select-FailsCancelled (test_failed before after i y) s = inr (λ x. ground arith)
  select-FailsCancelled (test_passed before after i y) s = inr (λ x. ground arith)
  select-FailsCancelled (race_cancelled x) s = inl (x, refl, refl)

  round-FailsCancelled :
      (e : RaceEvent R) (s : TestRace) → 0 < s.to_test → FailsCancelled e (race_round e s)
  unfolding race_round
  round-FailsCancelled e s more =
      let branch : Bool → RaceResult R =
        λ b. if b then race_failed (message "all tests failed") else select_race e s in
      let missing : (s.to_test == 0) ≡ false = ground arith in
      subst (FailsCancelled e) (sym (ap branch missing)) (select-FailsCancelled e s)

module _ {R : Type 0} {n : ℕ} {s : TestRace} where
  -- The tests are started one by one in the order of the entries, each once; and while a result is
  -- missing, a test runs or the next is started when the wait is over, which does not run out of range.
  pub Reach-tests :
      Reach R n s
      → 0 < s.to_test
      → (s.begun ≡ indices s.next)
        × (s.next ≤ n)
        × ((s.waiting ≡ true) ⊎ (0 < length s.running))
        × (s.waiting ≡ true → race_round {R = R} wait_over s ≢ out_of_range)
  Reach-tests r z =
      let h = Reach-Kept n (λ _. 1) r in
      (h.in_order, h.bound, ground (arith, h), starts-in_range {R = R} s (ground (arith, h)))

  all_over :
      Reach R n s
      → s.to_test ≡ 0
      → (s.begun ≡ indices n)
        × (s.running ≡ [])
        × ((f : ℕ → ℕ) → total f s.failed ≡ total f (indices n))
        × ((e : RaceEvent R) → race_round e s ≡ race_failed (message "all tests failed"))
  all_over r z =
      let h = Reach-Kept n (λ _. 1) r in
      let over : s.next ≡ n = omega (arith, h.counted, h.bound) in
      let none_runs = length-nil s.running (omega (arith, h.counted, h.bound)) in
      (
        h.in_order ∙ ap indices over,
        none_runs,
        λ f. omega (
          arith,
          (Reach-Kept n f r).all_begun,
          ap (total f) none_runs,
          ap (total f) (h.in_order ∙ ap indices over),
        ),
        λ e. round-ends e s z,
      )

  -- While a result is missing, a round returns an error only when the context ended, and it is that of the
  -- context. When no result is missing, every test was started, has failed, and none runs; and every round
  -- returns the error that all tests failed.
  pub Reach-all_failed :
      Reach R n s
      → ((0 < s.to_test) × ((e : RaceEvent R) → FailsCancelled e (race_round e s)))
        ⊎ ((s.to_test ≡ 0)
            × (s.begun ≡ indices n)
            × (s.running ≡ [])
            × ((f : ℕ → ℕ) → total f s.failed ≡ total f (indices n))
            × ((e : RaceEvent R) → race_round e s ≡ race_failed (message "all tests failed")))
  Reach-all_failed r = elim (zero_or_more s.to_test) [
    | inl z ↦
        let (begun, none_runs, failed, ends) = all_over r z in
        inr (z, begun, none_runs, failed, ends)
    | inr more ↦ inl (more, λ e. round-FailsCancelled e s more)
  ]
