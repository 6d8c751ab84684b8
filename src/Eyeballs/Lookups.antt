-- ===== src/Eyeballs/Lookups.antt =====
-- NewParallelHappyEyeballsResolveFunc of transport/happyeyeballs.go: the channel in every interleaving.
use bfx_outline_sdk.Prelude.{
  ◌⊎◌, total, total-split, total-all, ◌↔◌, ℕ, ◌+◌, true, false, List, [], ◌∷◌, ◌++◌, length,
  replicate, ◌≡◌, ◌≤◌, ◌<◌, arith, refl, ap, ◌∙◌, sym, length-append,
}
use mathlib.Core.Path.{subst₂}
use bfx_outline_sdk.Eyeballs.Resolve.{
  Resolution, Results, Lookup, resolving, sending, ending, finished, new_results, write_result,
  end_lookup, lookup_step, read_result, drain,
}

-- The channel and the goroutines.
pub record Pool : Type 0 where
  pub results : Results
  pub lookups : List Lookup

pub data Step : Pool → Pool → Type 0 where
  turn :
      {s : Pool} (before after : List Lookup) (p : Lookup) (r : Resolution)
      → s.lookups ≡ before ++ p ∷ after
      → Step s (record {
        results = (lookup_step r s.results p).0;
        lookups = before ++ (lookup_step r s.results p).1 ∷ after;
      })
  read : {s : Pool} → Step s (record s { results = read_result s.results })

-- The states that `n` lookups reach.
pub data Reach : ℕ → Pool → Type 0 where
  start : {n : ℕ} → Reach n (record { results = new_results n; lookups = replicate n resolving })
  later : {n : ℕ} {s t : Pool} → Reach n s → Step s t → Reach n t

-- A lookup that has not ended, and one that has not sent its result.
abbrev pub is_running : Lookup → ℕ
is_running finished = 0
is_running _ = 1

abbrev pub is_unsent : Lookup → ℕ
is_unsent resolving = 1
is_unsent (sending r) = 1
is_unsent _ = 0

-- What the goroutines keep, by the number of those that run and of those that have not sent.
record Kept (n : ℕ) (c : Results) (running unsent : ℕ) : Type 0 where
  counted : c.pending ≡ running
  all_sent : length c.sent + unsent ≡ n
  room : length c.buffer ≤ length c.sent
  sized : c.capacity ≡ n
  fewer : unsent ≤ running
  closed : (c.is_closed ≡ true) ↔ (running ≡ 0)
  sound : c.panicked ≡ false

step-Kept :
    (n k u : ℕ) (c : Results) (p : Lookup) (r : Resolution)
    → u ≤ k
    → Kept n c (is_running p + k) (is_unsent p + u)
    → let x = lookup_step r c p in Kept n x.0 (is_running x.1 + k) (is_unsent x.1 + u)
unfolding lookup_step write_result end_lookup
step-Kept n k u c resolving r le h = ground (arith, h)
step-Kept n k u c (sending x) r le h =
    ground (arith, h, length-append c.buffer (x ∷ []), length-append c.sent (x ∷ []))
step-Kept n k u c ending r le h = ground (arith, h)
step-Kept n k u c finished r le h = ground (arith, h)

unsent≤running : (ps : List Lookup) → total is_unsent ps ≤ total is_running ps
unsent≤running [] = omega arith
unsent≤running (resolving ∷ ps) = omega (arith, unsent≤running ps)
unsent≤running (sending r ∷ ps) = omega (arith, unsent≤running ps)
unsent≤running (ending ∷ ps) = omega (arith, unsent≤running ps)
unsent≤running (finished ∷ ps) = omega (arith, unsent≤running ps)

abbrev Inv : ℕ → Pool → Type 0
Inv n s = Kept n s.results (total is_running s.lookups) (total is_unsent s.lookups)

start-Kept : (n a b : ℕ) → a ≡ n → b ≡ n → Kept n (new_results n) a b
unfolding new_results
start-Kept n a b e f = ground arith

length-drain : (xs : List Resolution) → length (drain xs) ≤ length xs
length-drain [] = omega arith
length-drain (x ∷ xs) = omega arith

read-Kept : (n a b : ℕ) (c : Results) → Kept n c a b → Kept n (read_result c) a b
unfolding read_result
read-Kept n a b c h = ground (arith, h, length-drain c.buffer)

Step-Inv : (n : ℕ) {s t : Pool} → Step s t → Inv n s → Inv n t
Step-Inv n {s} (turn before after p r e) h =
    let k = total is_running before + total is_running after in
    let u = total is_unsent before + total is_unsent after in
    let x = lookup_step r s.results p in
    let run : total is_running s.lookups ≡ is_running p + k =
      ap (total is_running) e ∙ total-split is_running before after p in
    let uns : total is_unsent s.lookups ≡ is_unsent p + u =
      ap (total is_unsent) e ∙ total-split is_unsent before after p in
    subst₂ (Kept n x.0) (sym (total-split is_running before after x.1))
      (sym (total-split is_unsent before after x.1))
      (step-Kept n k u s.results p r (omega (arith, unsent≤running before, unsent≤running after))
        (subst₂ (Kept n s.results) run uns h))
Step-Inv n {s} read h =
    read-Kept n (total is_running s.lookups) (total is_unsent s.lookups) s.results h

Reach-Inv : {n : ℕ} {s : Pool} → Reach n s → Inv n s
Reach-Inv {n} start =
    start-Kept n (total is_running (replicate n resolving))
      (total is_unsent (replicate n resolving)) (total-all n is_running resolving refl)
      (total-all n is_unsent resolving refl)
Reach-Inv {n} (later r st) = Step-Inv n st (Reach-Inv r)

-- In every interleaving of the lookups with the reads of DialStream, no goroutine panics, the channel has
-- room while a lookup has not sent its result, even if nothing is read, each lookup that has gone beyond
-- sending has sent one result, and the channel is closed exactly when all lookups have ended.
pub Reach-lookups :
    {n : ℕ} {s : Pool}
    → Reach n s
    → (s.results.panicked ≡ false)
      × ((total is_unsent s.lookups ≡ 0) ⊎ (length s.results.buffer < s.results.capacity))
      × ((s.results.is_closed ≡ true) ↔ (total is_running s.lookups ≡ 0))
      × (length s.results.sent + total is_unsent s.lookups ≡ n)
Reach-lookups r = let h = Reach-Inv r in ground (arith, h)
