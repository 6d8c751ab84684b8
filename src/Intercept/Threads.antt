-- ===== src/Intercept/Threads.antt =====
-- network/dnsintercept/packet_relay.go: the goroutines, a stretch at a time.
use bfx_outline_sdk.Prelude.{
  ◌++◌, replicate, ◌≡◌, ℕ, suc, ◌&&◌, not, Bool, true, false, Option, none, some, ◌∷◌, List,
  if◌then◌else◌,
}
use bfx_outline_sdk.Io.{Bytes, GoError}
use bfx_outline_sdk.Truncate.{AddrPort}
use bfx_outline_sdk.Intercept.{
  new_assoc, is_same_addr_port, Assoc, Pc, idle, query, creating, created, sending, receiving,
  answering, answered, removing, closing, releasing, default_start, default_creating,
  default_created, default_failed, passing, receive_start, selecting, running, run_releasing,
  awaiting, crashed, close_sender, release, close, begin_query, register, remove_dns_sender,
  chan_closed, default_waiting, wake, get_default, install_default, install_failure,
  start_receiving,
}

-- A call of the parent's sender or receiver.
pub data Call : Type 0 where
  send : Bytes → AddrPort → Call
  shut : Call
  receive : Call

-- What comes from outside at a step: the call that is made, whether NewAssociation, SendPacket or a
-- wait succeed, or another packet comes, and the packet or the error.
pub record Answer : Type 0 where
  pub call : Call
  pub good : Bool
  pub bytes : Bytes
  pub err : GoError

-- A new sub-association of the relay.
abbrev pub new_sender : (ℕ → Pc) → Assoc → Assoc × Pc
new_sender next a = (record a { next_sender = suc a.next_sender }, next a.next_sender)

-- The select of HandlePacket: handlerReady, or closeChan; it waits if neither is ready.
unfoldable pub answer_first : Bool → AddrPort → ℕ → Bytes → Assoc → Assoc × Pc
answer_first ready local s p a =
    if ready && a.handler
    then (record a { delivered = (p, local) ∷ a.delivered }, answered s)
    else if not ready && chan_closed a
    then (a, receiving s true)
    else (a, answering s p)

-- The select of ReceivePackets: the channel with the receiver, or closeChan.
abbrev pub take_receiver : Option ℕ → Assoc → Assoc × Pc
take_receiver none a = (a, selecting)
take_receiver (some s) a = (record a { def_receiver = none }, running s)

unfoldable pub select_receiver : Bool → Assoc → Assoc × Pc
select_receiver ready a =
    if ready
    then take_receiver a.def_receiver a
    else if chan_closed a
    then (a, idle)
    else (a, selecting)

module _ (unmap : Bytes → Bytes) (dns_local dns_remote : AddrPort) where
  -- SendPacket is routed by its destination.
  unfoldable pub send_packet : Bytes → AddrPort → Pc
  send_packet p d = if is_same_addr_port unmap d dns_local then query p else default_start p d

  unfoldable pub begin_call : Call → Assoc → Assoc × Pc
  begin_call (send p d) a = (a, send_packet p d)
  begin_call shut a = ((close a).0, idle)
  begin_call receive a = (a, receive_start)

  -- The next stretch of a goroutine.
  unfoldable pub step : Assoc → Pc → Answer → Assoc × Pc
  step a idle o = begin_call o.call a
  -- handleDNSQuery
  step a (query p) o = begin_query p a
  step a (creating p) o = if o.good then new_sender (created p) a else (a, releasing)
  step a (created p s) o = register p s a
  step a (sending p s) o = (
    record a { sent = (p, dns_remote) ∷ a.sent },
    if o.good then receiving s false else removing s,
  )
  -- runDNSReceiver, in ReceivePackets, with the flag of its handler
  step a (receiving s handled) o =
      (a, if o.good then if handled then receiving s true else answering s o.bytes else removing s)
  step a (answering s p) o = answer_first o.good dns_local s p a
  step a (answered s) o = (close_sender s a, receiving s true)
  -- the end of runDNSReceiver, and of a query that failed
  step a (removing s) o = (remove_dns_sender s a, closing s)
  step a (closing s) o = (close_sender s a, releasing)
  step a releasing o = (release a, idle)
  -- getOrCreateDefaultSender
  step a (default_start p d) o = get_default p d a
  step a (default_waiting p d before) o = wake p d before a
  step a (default_creating p d) o =
      let a' : Assoc = record a { default_calls = suc a.default_calls } in
      if o.good then new_sender (default_created p d) a' else (a', default_failed o.err)
  step a (default_created p d s) o = install_default p d s a
  step a (default_failed e) o = install_failure e a
  step a (passing p d s) o = (a, idle)
  -- ReceivePackets
  step a receive_start o = start_receiving a
  step a selecting o = select_receiver o.good a
  step a (running s) o = (a, run_releasing)
  step a run_releasing o = (release a, awaiting)
  step a awaiting o = (a, if chan_closed a then idle else awaiting)
  step a crashed o = (a, crashed)

-- The goroutines over one association. Each starts a new call when it has finished one, and a query
-- that was sent goes on as the goroutine of its receiver.
pub record System : Type 0 where
  pub assoc : Assoc
  pub threads : List Pc

module _ (unmap : Bytes → Bytes) (dns_local dns_remote : AddrPort) where
  pub data Step (s : System) : System → Type 0 where
    turn :
        (before after : List Pc) (p : Pc) (o : Answer)
        → s.threads ≡ before ++ p ∷ after
        → Step s (
            let r = step unmap dns_local dns_remote s.assoc p o in
            record { assoc = r.0; threads = before ++ r.1 ∷ after })

  -- What `n` goroutines reach, each a stretch at a time and in any order.
  pub data Reach (n : ℕ) : System → Type 0 where
    start : Reach n (record { assoc = new_assoc; threads = replicate n idle })
    later : {s t : System} → Reach n s → Step s t → Reach n t
