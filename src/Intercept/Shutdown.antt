-- ===== src/Intercept/Shutdown.antt =====
-- After the parent is closed every goroutine comes to its end.
use bfx_outline_sdk.Prelude.{
  ◌∙◌, ap, ℕ, zero, suc, ◌≡◌, ◌≤◌, ◌<◌, Bool, true, false, arith, if◌then◌else◌, ◌⊎◌, inl, inr,
  refl,
}
use bfx_outline_sdk.Io.{Bytes}
use bfx_outline_sdk.Truncate.{AddrPort}
use bfx_outline_sdk.Intercept.{
  Assoc, Pc, idle, query, creating, created, sending, receiving, answering, answered, removing,
  closing, releasing, default_start, default_creating, default_waiting, default_created,
  default_failed, passing, receive_start, selecting, running, run_releasing, awaiting, crashed,
  release, close, close_locked, begin_query, register, remove_dns_sender, get_default, wake,
  install_default, install_failure, start_receiving,
}
use bfx_outline_sdk.Intercept.Counts.{crashes}
use bfx_outline_sdk.Intercept.Wakes.{asleep}
use bfx_outline_sdk.Intercept.Threads.{
  Answer, step, begin_call, send_packet, answer_first, select_receiver,
}

-- How many stretches of a goroutine are left at most, when the calls that it waits for return.
abbrev pub left : Pc → ℕ
left idle = 0
left (query _) = 1
left (creating _) = 4
left (created _ _) = 3
left (sending _ _) = 4
left (receiving _ _) = 4
left (answering _ _) = 5
left (answered _) = 5
left (removing _) = 3
left (closing _) = 2
left releasing = 1
left (default_start _ _) = 1
left (default_waiting _ _ _) = 1
left (default_creating _ _) = 2
left (default_created _ _ _) = 1
left (default_failed _) = 1
left (passing _ _ _) = 1
left receive_start = 1
left selecting = 1
left (running _) = 3
left run_releasing = 2
left awaiting = 1
left crashed = 0

abbrev pub is_idle : Pc → Bool
is_idle idle = true
is_idle _ = false

idle-cases : (p : Pc) → crashes p ≡ 0 → (p ≡ idle) ⊎ ((is_idle p ≡ false) × (0 < left p))
idle-cases idle h = inl refl
idle-cases (query p) h = inr (refl, omega arith)
idle-cases p h = ground arith

-- The association and closeChan are closed, and the goroutine does not sleep.
abbrev pub Ends : Assoc → Pc → Type 0
Ends a p = (a.is_closed ≡ true) × (0 < a.chan_closes) × (asleep a.broadcasts p ≡ 0)

module _ (unmap : Bytes → Bytes) (dns_local dns_remote : AddrPort) where
  -- A goroutine that runs alone, until it is idle or `n` stretches are done, with the same answer `o`
  -- from outside each time.
  unfoldable pub finish : ℕ → Answer → Assoc → Pc → Assoc × Pc
  finish zero o a p = (a, p)
  finish (suc n) o a p =
      let x = step unmap dns_local dns_remote a p o in
      let more = finish n o x.0 x.1 in if is_idle p then (a, p) else more

  step-left :
      (o : Answer) (a : Assoc) (p : Pc)
      → o.good ≡ false
      → Ends a p
      → 0 < left p
      → let x = step unmap dns_local dns_remote a p o in
        Ends x.0 x.1 × (crashes x.1 ≡ 0) × (left x.1 < left p)
  unfolding step begin_call send_packet begin_query register remove_dns_sender release close
      close_locked get_default wake install_default install_failure start_receiving answer_first
      select_receiver
  step-left o a idle h c lt = absurd (omega arith)
  step-left o a p h c lt = ground arith

  pub finish-idle :
      (n : ℕ) (o : Answer) (a : Assoc) (p : Pc)
      → o.good ≡ false
      → Ends a p
      → crashes p ≡ 0
      → left p ≤ n
      → (finish n o a p).1 ≡ idle
  unfolding finish
  finish-idle zero o a p h c sound le = elim (idle-cases p sound) [
    | inl e ↦ e
    | inr (e, lt) ↦ absurd (omega arith)
  ]
  finish-idle (suc n) o a p h c sound le =
      let x = step unmap dns_local dns_remote a p o in
      let branch : Bool → Assoc × Pc = λ b. if b then (a, p) else finish n o x.0 x.1 in
      elim (idle-cases p sound) [
        | inl e ↦ ap (λ q. (branch (is_idle q)).1) e ∙ e
        | inr (e, lt) ↦
            let (c', sound', lt') = step-left o a p h c lt in
            ap (λ b. (branch b).1) e ∙ finish-idle n o x.0 x.1 h c' sound' (omega arith)
      ]
