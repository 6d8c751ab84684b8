-- ===== src/Intercept/Counts.antt =====
-- What the goroutines count: sub-associations in use, the creation of the default one, crashes.
use bfx_outline_sdk.Prelude.{ℕ, ◌+◌, ◌≡◌, ◌≤◌, Option, none, some, arith}
use bfx_outline_sdk.Io.{Bytes}
use bfx_outline_sdk.Truncate.{AddrPort}
use bfx_outline_sdk.Intercept.{
  Assoc, Pc, query, creating, created, sending, receiving, answering, answered, removing, closing,
  releasing, default_creating, default_created, default_failed, running, run_releasing, crashed,
  release, close, close_locked, begin_query, register, remove_dns_sender, get_default, wake,
  install_default, install_failure, start_receiving, DefState, state_initializing,
  state_initialized,
}
use bfx_outline_sdk.Intercept.Threads.{
  Answer, step, begin_call, send_packet, answer_first, select_receiver,
}

-- The sub-association that a goroutine counts for.
abbrev pub weight : Pc → ℕ
weight (creating _) = 1
weight (created _ _) = 1
weight (sending _ _) = 1
weight (receiving _ _) = 1
weight (answering _ _) = 1
weight (answered _) = 1
weight (removing _) = 1
weight (closing _) = 1
weight releasing = 1
weight (running _) = 1
weight run_releasing = 1
weight _ = 0

-- It is about to call NewAssociation of the default relay, or has called it.
abbrev pub will_make : Pc → ℕ
will_make (default_creating _ _) = 1
will_make _ = 0

abbrev pub has_made : Pc → ℕ
has_made (default_created _ _ _) = 1
has_made (default_failed _) = 1
has_made _ = 0

abbrev pub crashes : Pc → ℕ
crashes crashed = 1
crashes _ = 0

abbrev pub initializing : DefState → ℕ
initializing state_initializing = 1
initializing _ = 0

abbrev pub initialized : DefState → ℕ
initialized state_initialized = 1
initialized _ = 0

abbrev pub filled : {A : Type 0} → Option A → ℕ
filled none = 0
filled (some _) = 1

-- `v` sums a count over all goroutines.
pub record Counts (a : Assoc) (v : (Pc → ℕ) → ℕ) : Type 0 where
  pub counted : a.active_count ≡ v weight + filled a.def_receiver
  pub making : v will_make + v has_made ≡ initializing a.def_state
  pub called : a.default_calls ≡ v has_made + initialized a.def_state
  pub receiver_last : filled a.def_receiver ≤ initialized a.def_state
  pub sender_last : filled a.def_sender ≤ initialized a.def_state
  pub cached : initialized a.def_state ≤ filled a.def_sender + filled a.def_init_err
  pub sound : v crashes ≡ 0

-- One goroutine at `p`, and the others with the sums `r`.
abbrev pub with_others : ((Pc → ℕ) → ℕ) → Pc → (Pc → ℕ) → ℕ
with_others r p f = f p + r f

module _ (unmap : Bytes → Bytes) (dns_local dns_remote : AddrPort) (r : (Pc → ℕ) → ℕ) where
  abbrev Kept : Assoc × Pc → Type 0
  Kept x = Counts x.0 (with_others r x.1)

  pub step-Counts :
      (a : Assoc) (p : Pc) (o : Answer)
      → Counts a (with_others r p)
      → Kept (step unmap dns_local dns_remote a p o)
  unfolding step begin_call send_packet begin_query register remove_dns_sender release close
      close_locked get_default wake install_default install_failure start_receiving answer_first
      select_receiver
  step-Counts a (query p) o h = ground arith
  step-Counts a p o h = ground arith
