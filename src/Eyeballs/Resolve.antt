-- ===== src/Eyeballs/Resolve.antt =====
-- NewParallelHappyEyeballsResolveFunc of transport/happyeyeballs.go: the goroutines and the channel. The
-- functions that resolve are not code of this file: what they answer is given.
use bfx_outline_sdk.Prelude.{
  ℕ, ◌-◌, ◌==◌, ltb, Bool, true, false, List, [], ◌∷◌, ◌++◌, length, if◌then◌else◌, ◌||◌,
}
use bfx_outline_sdk.Io.{Fault}
use bfx_outline_sdk.Eyeballs.{Addr}

-- HappyEyeballsResolution.
pub record Resolution : Type 0 where
  pub ips : List Addr
  pub err : Fault

-- resultsCh with its capacity, and the counter; `sent` is kept for the statements, and `panicked` tells
-- whether a goroutine wrote to the closed channel or closed it again.
pub record Results : Type 0 where
  pub capacity : ℕ
  pub buffer : List Resolution
  pub is_closed : Bool
  pub pending : ℕ
  pub sent : List Resolution
  pub panicked : Bool

-- Where a goroutine is.
pub data Lookup : Type 0 where
  resolving : Lookup
  sending : Resolution → Lookup
  ending : Lookup
  finished : Lookup

-- make, the test for no functions, and Store.
unfoldable pub new_results : ℕ → Results
new_results n = record {
  capacity = n;
  buffer = [];
  is_closed = n == 0;
  pending = n;
  sent = [];
  panicked = false;
}

-- A write to the channel; it waits while the buffer is full.
unfoldable pub write_result : Resolution → Results → Results × Lookup
write_result r c =
    if c.is_closed
    then (record c { panicked = true }, finished)
    else if ltb (length c.buffer) c.capacity
    then (record c { buffer = c.buffer ++ r ∷ []; sent = c.sent ++ r ∷ [] }, ending)
    else (c, sending r)

-- close, which panics on a closed channel.
abbrev pub close_results : Results → Results
close_results c = record c { is_closed = true; panicked = c.panicked || c.is_closed }

-- Add, and the test of what it returns.
unfoldable pub end_lookup : Results → Results
end_lookup c =
    let left = c.pending - 1 in
    let after : Results = record c { pending = left } in
    if left == 0 then close_results after else after

-- One step of a goroutine, where `r` is what its function returned.
unfoldable pub lookup_step : Resolution → Results → Lookup → Results × Lookup
lookup_step r c resolving = (c, sending r)
lookup_step r c (sending x) = write_result x c
lookup_step r c ending = (end_lookup c, finished)
lookup_step r c finished = (c, finished)

-- A read from the channel, by DialStream; on an empty one it waits, or sees that it is closed.
abbrev pub drain : List Resolution → List Resolution
drain [] = []
drain (x ∷ xs) = xs

unfoldable pub read_result : Results → Results
read_result c = record c { buffer = drain c.buffer }
