-- ===== src/Intercept/Reached.antt =====
-- What the parent association promises, in every state that any number of goroutines reaches.
use bfx_outline_sdk.Prelude.{
  bit, ℕ, ◌+◌, ◌≡◌, ◌≤◌, ◌<◌, true, false, arith, ◌⊎◌, inl, inr, List, ◌∷◌, ◌++◌, All, length, ap,
  ◌∙◌, none,
}
use bfx_outline_sdk.Io.{Bytes}
use bfx_outline_sdk.Truncate.{AddrPort}
use bfx_outline_sdk.Intercept.{
  Assoc, Pc, idle, is_sender, release, close, close_locked, begin_query, register,
  remove_dns_sender, get_default, wake, install_default, install_failure, start_receiving,
}
use bfx_outline_sdk.Intercept.Threads.{
  Answer, System, Reach, step, shut, begin_call, send_packet, answer_first, select_receiver,
}
use bfx_outline_sdk.Intercept.Counts.{weight, crashes, filled}
use bfx_outline_sdk.Intercept.Senders.{holds}
use bfx_outline_sdk.Intercept.Safety.{sum_over, sum_over-split, others, Reach-Inv}
use bfx_outline_sdk.Intercept.Wakes.{asleep}
use bfx_outline_sdk.Intercept.Shutdown.{finish, finish-idle}

module _ (unmap : Bytes → Bytes) (dns_local dns_remote : AddrPort) where
  -- The two ways in which a stretch sets `is_closed`.
  closes-cases :
      (a : Assoc) (p : Pc) (o : Answer)
      → a.is_closed ≡ false
      → (step unmap dns_local dns_remote a p o).0.is_closed ≡ true
      → ((p ≡ idle) × (o.call ≡ shut)) ⊎ ((weight p ≡ 1) × (a.active_count ≤ 1))
  unfolding step begin_call send_packet begin_query register remove_dns_sender release close
      close_locked get_default wake install_default install_failure start_receiving answer_first
      select_receiver
  closes-cases a idle o was now = ground arith
  closes-cases a p o was now = ground arith

module _ (unmap : Bytes → Bytes) (dns_local dns_remote : AddrPort) {n : ℕ} {s : System} where
  -- The active count is the number of goroutines that use a sub-association, plus one for a default
  -- receiver that waits to be taken; NewAssociation of the default relay is called once at most; and
  -- no goroutine uses a nil sender or blocks in the channel with the mutex held.
  pub Reach-counted :
      Reach unmap dns_local dns_remote n s
      → (s.assoc.active_count ≡ sum_over s.threads weight + filled s.assoc.def_receiver)
        × (s.assoc.default_calls ≤ 1)
        × (sum_over s.threads crashes ≡ 0)
  Reach-counted r = let c = (Reach-Inv unmap dns_local dns_remote r).counts in ground (arith, c)

  -- Once the association is closed, a sender that was made is closed unless a goroutine still has it,
  -- and the senders that are registered are closed in any case.
  pub Reach-no_leak :
      Reach unmap dns_local dns_remote n s
      → (id : ℕ) → s.assoc.is_closed ≡ true
      → ((s.assoc.next_sender ≤ id)
          ⊎ (0 < sum_over s.threads (holds id))
          ⊎ (s.assoc.closed_sender id ≡ true))
        × ((s.assoc.dns_senders id ≡ false) ⊎ (s.assoc.closed_sender id ≡ true))
        × ((is_sender id s.assoc.def_sender ≡ false) ⊎ (s.assoc.closed_sender id ≡ true))
  Reach-no_leak r id c =
      let h = (Reach-Inv unmap dns_local dns_remote r).senders id in ground (arith, h)

  -- An association is closed by a call of Close, or by a Release when no other goroutine uses a
  -- sub-association and no default receiver waits.
  pub step-closes :
      (before after : List Pc) (p : Pc) (o : Answer)
      → Reach unmap dns_local dns_remote n s
      → s.threads ≡ before ++ p ∷ after
      → s.assoc.is_closed ≡ false
      → (step unmap dns_local dns_remote s.assoc p o).0.is_closed ≡ true
      → ((p ≡ idle) × (o.call ≡ shut))
        ⊎ ((weight p ≡ 1) × (others before after weight ≡ 0) × (s.assoc.def_receiver ≡ none))
  step-closes before after p o r split was now =
      let c = (Reach-Inv unmap dns_local dns_remote r).counts.counted in
      let here = ap (λ ts. sum_over ts weight) split ∙ sum_over-split before after p weight in
      elim (closes-cases unmap dns_local dns_remote s.assoc p o was now) [
        | inl h ↦ inl h
        | inr (w, le) ↦ inr (ground (arith, c, here))
      ]

  -- All packets of queries went to the remote resolver, all that its receivers passed on came from the
  -- local one, and there are no more of these than queries.
  pub Reach-rewritten :
      Reach unmap dns_local dns_remote n s
      → All (λ x. x.1 ≡ dns_remote) s.assoc.sent
        × All (λ x. x.1 ≡ dns_local) s.assoc.delivered
        × (length s.assoc.delivered ≤ length s.assoc.sent)
  Reach-rewritten r =
      let h = (Reach-Inv unmap dns_local dns_remote r).logs in
      (h.to_remote, h.from_local, omega (arith, h.one_each))

  -- When the association is closed, closeChan was closed just once, no goroutine sleeps in Wait, and a
  -- goroutine whose calls return, and no more with success, is idle after five stretches at most.
  pub Reach-finish :
      (before after : List Pc) (p : Pc) (o : Answer)
      → Reach unmap dns_local dns_remote n s
      → s.threads ≡ before ++ p ∷ after
      → s.assoc.is_closed ≡ true
      → o.good ≡ false
      → (s.assoc.chan_closes ≡ 1)
        × (sum_over s.threads (asleep s.assoc.broadcasts) ≡ 0)
        × ((finish unmap dns_local dns_remote 5 o s.assoc p).1 ≡ idle)
  Reach-finish before after p o r split c h =
      let inv = Reach-Inv unmap dns_local dns_remote r in
      let once : s.assoc.chan_closes ≡ 1 = omega (arith, inv.wakes.channel, ap bit c) in
      let woken = inv.wakes.over c in
      let here = λ (f : Pc → ℕ). ap (λ ts. sum_over ts f) split ∙ sum_over-split before after p f in
      let awake : asleep s.assoc.broadcasts p ≡ 0 =
        omega (arith, woken, here (asleep s.assoc.broadcasts)) in
      (
        once,
        woken,
        finish-idle unmap dns_local dns_remote 5 o s.assoc p h (c, omega (arith, once), awake)
            (omega (arith, inv.counts.sound, here crashes)) (ground arith),
      )
