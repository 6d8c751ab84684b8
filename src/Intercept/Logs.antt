-- ===== src/Intercept/Logs.antt =====
-- The packets that a DNS sender is given, and those that the parent's handler gets of it.
use bfx_outline_sdk.Prelude.{ℕ, ◌+◌, ◌≡◌, ◌≤◌, false, arith, All, length}
use bfx_outline_sdk.Io.{Bytes}
use bfx_outline_sdk.Truncate.{AddrPort}
use bfx_outline_sdk.Intercept.{
  Assoc, Pc, query, receiving, answering, release, close, close_locked, begin_query, register,
  remove_dns_sender, get_default, wake, install_default, install_failure, start_receiving,
}
use bfx_outline_sdk.Intercept.Threads.{
  Answer, step, begin_call, send_packet, answer_first, select_receiver,
}
use bfx_outline_sdk.Intercept.Counts.{with_others}

-- A query that was sent and whose first response has not come to the handler.
abbrev pub open_query : Pc → ℕ
open_query (receiving _ false) = 1
open_query (answering _ _) = 1
open_query _ = 0

-- Queries go to the remote resolver, responses come from the local one, and each query has one
-- response at most.
pub record Logged (dns_local dns_remote : AddrPort) (a : Assoc) (v : (Pc → ℕ) → ℕ) : Type 0 where
  pub to_remote : All (λ x. x.1 ≡ dns_remote) a.sent
  pub from_local : All (λ x. x.1 ≡ dns_local) a.delivered
  pub one_each : length a.delivered + v open_query ≤ length a.sent

module _ (unmap : Bytes → Bytes) (dns_local dns_remote : AddrPort) (r : (Pc → ℕ) → ℕ) where
  pub step-Logged :
      (a : Assoc) (p : Pc) (o : Answer)
      → Logged dns_local dns_remote a (with_others r p)
      → let x = step unmap dns_local dns_remote a p o in
        Logged dns_local dns_remote x.0 (with_others r x.1)
  unfolding step begin_call send_packet begin_query register remove_dns_sender release close
      close_locked get_default wake install_default install_failure start_receiving answer_first
      select_receiver
  step-Logged a (query p) o h = ground arith
  step-Logged a p o h = ground arith
