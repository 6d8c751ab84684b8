-- ===== src/Relay/Timeout.antt =====
-- network/packetrelay/timeout_packet_relay.go. A step is a stretch of code under the mutex, or a call of
-- the inner sender, which is not code of this file; the clock stands still in a step.
pub mod Kept
pub mod Results
use bfx_outline_sdk.Prelude.{
  ℕ, suc, ◌+◌, ◌-◌, ◌≡◌, ◌≤◌, leb, Bool, true, false, Option, none, some, List, [], ◌∷◌, ◌++◌,
  replicate, if◌then◌else◌,
}
use bfx_outline_sdk.Io.{Bytes, Fault, GoError, message}
use bfx_outline_sdk.Truncate.{AddrPort, err_closed}

abbrev pub Packet : Type 0
Packet = Bytes × AddrPort

-- timeoutPacketSender. `has_inner` tells whether inner is not nil, and `timer` when the timer will call
-- checkTimeout. The clock, and what is kept for the statements: the packets that were accepted, with the
-- time, those given to the inner sender, how often that was closed, and when the timeout closed it.
pub record Timed : Type 0 where
  pub closed : Bool
  pub has_inner : Bool
  pub timer : Option ℕ
  pub timeout : ℕ
  pub last_activity : ℕ
  pub now : ℕ
  pub accepted : List (ℕ × Packet)
  pub forwarded : List Packet
  pub inner_closes : ℕ
  pub expired : Option ℕ

-- Where a goroutine is; idle, with the result of its last call.
pub data Pc : Type 0 where
  idle : Fault → Pc
  checking : Pc
  forwarding : Packet → Pc
  closing : Pc
  crashed : Pc

pub data Call : Type 0 where
  send : Packet → Call
  shut : Call

-- NewAssociation, when the inner relay gave a sender at the time `now`.
unfoldable pub new_timed : ℕ → ℕ → Timed
new_timed timeout now = record {
  closed = false;
  has_inner = true;
  timer = some (now + timeout);
  timeout = timeout;
  last_activity = now;
  now = now;
  accepted = [];
  forwarded = [];
  inner_closes = 0;
  expired = none;
}

-- The local variable inner, of which a method is called next.
abbrev pub with_inner : Pc → Bool → Pc
with_inner p true = p
with_inner p false = crashed

unfoldable pub send_packet : Packet → Timed → Timed × Pc
send_packet p s = if s.closed then (s, idle (some err_closed)) else (
  record s { last_activity = s.now; accepted = s.accepted ++ (s.now, p) ∷ [] },
  with_inner (forwarding p) s.has_inner,
)

-- What Close and checkTimeout do under the mutex.
abbrev pub mark_closed : Timed → Timed × Pc
mark_closed s =
    (record s { closed = true; timer = none; has_inner = false }, with_inner closing s.has_inner)

abbrev pub mark_expired : Timed → Timed × Pc
mark_expired s = mark_closed (record s { expired = some s.now })

unfoldable pub check_timeout : Timed → Timed × Pc
check_timeout s =
    let elapsed = s.now - s.last_activity in
    if s.closed
    then (s, idle none)
    else if leb s.timeout elapsed
    then mark_expired s
    else (record s { timer = some (s.now + (s.timeout - elapsed)) }, idle none)

unfoldable pub close : Timed → Timed × Pc
close s = if s.closed then (s, idle (some err_closed)) else mark_closed s

abbrev pub begin_call : Call → Timed → Timed × Pc
begin_call (send p) s = send_packet p s
begin_call shut s = close s

-- One step of a goroutine: `c` is the call that an idle one makes, and `e` what the inner sender returns.
unfoldable pub step : Call → Fault → Timed → Pc → Timed × Pc
step c e s (idle r) = begin_call c s
step c e s checking = check_timeout s
step c e s (forwarding p) = (record s { forwarded = s.forwarded ++ p ∷ [] }, idle e)
step c e s closing = (record s { inner_closes = suc s.inner_closes }, idle e)
step c e s crashed = (s, crashed)

pub record System : Type 0 where
  pub timed : Timed
  pub threads : List Pc

-- A step of a goroutine, of the clock, or of the timer, which starts a goroutine for checkTimeout.
pub data Step : System → System → Type 0 where
  turn :
      {s : System} (before after : List Pc) (p : Pc) (c : Call) (e : Fault)
      → s.threads ≡ before ++ p ∷ after
      → Step s (record {
        timed = (step c e s.timed p).0;
        threads = before ++ (step c e s.timed p).1 ∷ after;
      })
  tick : {s : System} → Step s (record s { timed = record s.timed { now = suc s.timed.now } })
  fire :
      {s : System} (d : ℕ)
      → s.timed.timer ≡ some d
      → d ≤ s.timed.now
      → Step s (record { timed = record s.timed { timer = none }; threads = checking ∷ s.threads })

-- The states that an association with `n` goroutines reaches.
pub data Reach (timeout n : ℕ) : System → Type 0 where
  start :
      (now : ℕ)
      → Reach timeout n
          (record { timed = new_timed timeout now; threads = replicate n (idle none) })
  later : {s t : System} → Reach timeout n s → Step s t → Reach timeout n t
