-- ===== src/Intercept/Senders.antt =====
-- Who is to close a sender.
use bfx_outline_sdk.Prelude.{ℕ, ◌+◌, ◌≡◌, ◌≤◌, ◌<◌, ◌==◌, Bool, true, false, arith, if◌then◌else◌}
use bfx_outline_sdk.Io.{Bytes}
use bfx_outline_sdk.Truncate.{AddrPort}
use bfx_outline_sdk.Intercept.{
  Assoc, Pc, query, created, sending, receiving, answering, answered, removing, closing,
  default_created, release, close, close_locked, begin_query, register, remove_dns_sender,
  get_default, wake, install_default, install_failure, start_receiving, is_sender,
}
use bfx_outline_sdk.Intercept.Threads.{
  Answer, step, begin_call, send_packet, answer_first, select_receiver,
}
use bfx_outline_sdk.Intercept.Counts.{Counts, with_others}

abbrev pub bit : Bool → ℕ
bit false = 0
bit true = 1

-- A goroutine that is still going to close the sender `id`, or to hand it on.
abbrev pub holds : ℕ → Pc → ℕ
holds id (created _ s) = bit (s == id)
holds id (sending _ s) = bit (s == id)
holds id (receiving s _) = bit (s == id)
holds id (answering s _) = bit (s == id)
holds id (answered s) = bit (s == id)
holds id (removing s) = bit (s == id)
holds id (closing s) = bit (s == id)
holds id (default_created _ _ s) = bit (s == id)
holds id _ = 0

-- A sender that was made is closed, or some goroutine has it, or it is the default sender of an
-- association that is not closed; and closing the association closes what is registered.
pub record Cared (id : ℕ) (a : Assoc) (v : (Pc → ℕ) → ℕ) : Type 0 where
  pub cared :
      id < a.next_sender
      → 1
        ≤ bit (a.closed_sender id)
          + v (holds id)
          + (if a.is_closed then 0 else bit (is_sender id a.def_sender))
  pub registered : a.is_closed ≡ true → a.dns_senders id ≡ true → a.closed_sender id ≡ true
  pub default_too :
      a.is_closed ≡ true → is_sender id a.def_sender ≡ true → a.closed_sender id ≡ true

module _ (unmap : Bytes → Bytes) (dns_local dns_remote : AddrPort) (r : (Pc → ℕ) → ℕ) (id : ℕ) where
  pub step-Cared :
      (a : Assoc) (p : Pc) (o : Answer)
      → Counts a (with_others r p)
      → Cared id a (with_others r p)
      → let x = step unmap dns_local dns_remote a p o in Cared id x.0 (with_others r x.1)
  unfolding step begin_call send_packet begin_query register remove_dns_sender release close
      close_locked get_default wake install_default install_failure start_receiving answer_first
      select_receiver
  step-Cared a (query p) o k h = ground arith
  step-Cared a p o k h = ground arith
