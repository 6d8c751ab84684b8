-- ===== src/Intercept/Wakes.antt =====
-- Who waits on cond, and who reads closeChan: no call of Broadcast or close is missing.
use bfx_outline_sdk.Prelude.{ℕ, suc, ◌≡◌, ◌<◌, true, arith, ltb, if◌then◌else◌, bit}
use bfx_outline_sdk.Io.{Bytes}
use bfx_outline_sdk.Truncate.{AddrPort}
use bfx_outline_sdk.Intercept.{
  Assoc, Pc, query, default_waiting, release, close, close_locked, begin_query, register,
  remove_dns_sender, get_default, wake, install_default, install_failure, start_receiving,
}
use bfx_outline_sdk.Intercept.Threads.{
  Answer, step, begin_call, send_packet, answer_first, select_receiver,
}
use bfx_outline_sdk.Intercept.Counts.{with_others, initializing}

-- A goroutine in Wait that `c` calls of Broadcast have not woken.
abbrev pub asleep : ℕ → Pc → ℕ
asleep c (default_waiting _ _ before) = if ltb before c then 0 else 1
asleep c _ = 0

-- closeChan is closed once, when the association is; a goroutine sleeps only while the association is
-- open and its default sub-association is made, and the next Broadcast wakes it.
pub record Wakes (a : Assoc) (v : (Pc → ℕ) → ℕ) : Type 0 where
  pub channel : a.chan_closes ≡ bit a.is_closed
  pub next : (c : ℕ) → a.broadcasts < c → v (asleep c) ≡ 0
  pub over : a.is_closed ≡ true → v (asleep a.broadcasts) ≡ 0
  pub made : initializing a.def_state ≡ 0 → v (asleep a.broadcasts) ≡ 0

module _ (unmap : Bytes → Bytes) (dns_local dns_remote : AddrPort) (r : (Pc → ℕ) → ℕ) where
  pub step-Wakes :
      (a : Assoc) (p : Pc) (o : Answer)
      → Wakes a (with_others r p)
      → let x = step unmap dns_local dns_remote a p o in Wakes x.0 (with_others r x.1)
  unfolding step begin_call send_packet begin_query register remove_dns_sender release close
      close_locked get_default wake install_default install_failure start_receiving answer_first
      select_receiver
  step-Wakes a (query p) o h = ground (arith, h.next (suc a.broadcasts) (omega arith))
  step-Wakes a p o h = ground (arith, h.next (suc a.broadcasts) (omega arith))
