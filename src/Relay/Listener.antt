-- ===== src/Relay/Listener.antt =====
-- network/packetrelay/packet_listener_relay.go. A step is a stretch of code under the mutex, or a call of
-- the packet connection or the handler, which are not code of this file; the clock stands still in a
-- step.
pub mod Kept
pub mod Results
use bfx_outline_sdk.Prelude.{
  ℕ, suc, ◌+◌, ◌≡◌, ◌≤◌, Bool, true, false, Option, none, some, List, [], ◌∷◌, ◌++◌, replicate,
  if◌then◌else◌, ◌⊎◌, inl, inr, bit,
}
use bfx_outline_sdk.Prelude.Int.{ℤ, pos, pos_part, leb_ℤ}
use bfx_outline_sdk.Io.{message, Bytes, Fault, GoError, Fallible, is_some}
use bfx_outline_sdk.Truncate.{AddrPort, err_closed}
use bfx_outline_sdk.Relay.Timeout.{Packet}

-- packetListenerAssociation. `has_conn` tells whether packetConn is not nil. Kept for the statements: the
-- clock, the deadline last asked for, when the last packet was accepted (or the association made),
-- what was written, read and handled, how often the connection was closed, and how often a deadline was
-- set after that.
pub record Association : Type 0 where
  pub closed : Bool
  pub has_conn : Bool
  pub write_idle_timeout : ℕ
  pub now : ℕ
  pub deadline : ℕ
  pub refreshed : ℕ
  pub written : List Packet
  pub read : ℕ
  pub handled : ℕ
  pub conn_closes : ℕ
  pub late_deadlines : ℕ

-- Where a goroutine is: in calls of the sender, of which `idle` has the result, and in ReceivePackets,
-- which ends after an error of the connection (`stopped`) or of another (`refused`).
pub data Pc : Type 0 where
  idle : Fault → Pc
  getting : Packet → Pc
  writing : Packet → Pc
  closing : Pc
  reading : Pc
  handling : Packet → Pc
  read_failed : GoError → Pc
  read_closing : GoError → Pc
  stopped : GoError → Pc
  refused : GoError → Pc
  crashed : Pc

pub data Call : Type 0 where
  send : Packet → Call
  shut : Call
  receive : Call

-- What ReadFrom answers: io.ErrShortBuffer, another error, or a packet with its source, which may not
-- parse.
pub data Read : Type 0 where
  short : Read
  failed : GoError → Read
  arrived : Bytes → Fallible AddrPort → Read

-- What a goroutine meets: the call that it makes when idle, what ReadFrom answers, and the result of
-- any other call of the connection or the handler.
pub record Answer : Type 0 where
  pub call : Call
  pub read : Read
  pub err : Fault

abbrev pub with_conn : Pc → Bool → Pc
with_conn p true = p
with_conn p false = crashed

-- SetDeadline.
abbrev pub set_deadline : Association → Association
set_deadline a = record a {
  deadline = a.now + a.write_idle_timeout;
  refreshed = a.now;
  late_deadlines = a.late_deadlines + a.conn_closes;
}

-- refreshDeadline, and what SendPacket does with its result.
abbrev pub refreshed_or : Packet → Fault → Pc
refreshed_or p none = getting p
refreshed_or p (some e) = idle (some e)

unfoldable pub refresh_deadline : Packet → Fault → Association → Association × Pc
refresh_deadline p e a =
    if a.closed
    then (a, idle (some err_closed))
    else (if a.has_conn then set_deadline a else a, with_conn (refreshed_or p e) a.has_conn)

unfoldable pub get_packet_conn : Packet → Association → Association × Pc
get_packet_conn p a =
    if a.closed then (a, idle (some err_closed)) else (a, with_conn (writing p) a.has_conn)

-- What close does under the mutex; `next` closes the connection.
unfoldable pub close : Pc → Pc → Association → Association × Pc
close next done a =
    if a.closed
    then (a, done)
    else (record a { closed = true; has_conn = false }, with_conn next a.has_conn)

abbrev pub close_conn : Association → Association
close_conn a = record a { conn_closes = suc a.conn_closes }

abbrev pub begin_call : Call → Fault → Association → Association × Pc
begin_call (send p) e a = refresh_deadline p e a
begin_call shut e a = close closing (idle (some err_closed)) a
begin_call receive e a = (a, reading)

abbrev pub on_read : Read → Association → Association × Pc
on_read short a = (a, reading)
on_read (failed e) a = (a, read_failed e)
on_read (arrived p (inl e)) a = (a, refused e)
on_read (arrived p (inr source)) a = (record a { read = suc a.read }, handling (p, source))

abbrev pub handled_or : Fault → Pc
handled_or none = reading
handled_or (some e) = refused e

unfoldable pub step : Answer → Association → Pc → Association × Pc
step o a (idle r) = begin_call o.call o.err a
step o a (getting p) = get_packet_conn p a
step o a (writing p) = (record a { written = a.written ++ p ∷ [] }, idle o.err)
step o a closing = (close_conn a, idle o.err)
step o a reading = on_read o.read a
step o a (handling p) = (record a { handled = suc a.handled }, handled_or o.err)
step o a (read_failed e) = close (read_closing e) (stopped e) a
step o a (read_closing e) = (close_conn a, stopped e)
step o a (stopped e) = (a, stopped e)
step o a (refused e) = (a, refused e)
step o a crashed = (a, crashed)

-- SetWriteIdleTimeout: the timeout of later associations, and the error.
unfoldable pub set_write_idle_timeout : ℤ → ℕ → ℕ × Fault
set_write_idle_timeout timeout old =
    if leb_ℤ timeout (pos 0)
    then (old, some (message "timeout must be greater than 0"))
    else (pos_part timeout, none)

-- NewAssociation, when the listener gave a connection at the time `now` and SetDeadline returned `e`;
-- after an error nothing is returned to the caller but the error.
unfoldable pub new_association : ℕ → ℕ → Fault → Association × Fault
new_association timeout now e =
    let a : Association = set_deadline (record {
      closed = false;
      has_conn = true;
      write_idle_timeout = timeout;
      now = now;
      deadline = 0;
      refreshed = 0;
      written = [];
      read = 0;
      handled = 0;
      conn_closes = 0;
      late_deadlines = 0;
    }) in
    if is_some e then (close_conn (close closing closing a).0, e) else (a, none)

pub record System : Type 0 where
  pub association : Association
  pub threads : List Pc

pub data Step : System → System → Type 0 where
  turn :
      {s : System} (before after : List Pc) (p : Pc) (o : Answer)
      → s.threads ≡ before ++ p ∷ after
      → Step s (record {
        association = (step o s.association p).0;
        threads = before ++ (step o s.association p).1 ∷ after;
      })
  tick :
      {s : System}
      → Step s (record s { association = record s.association { now = suc s.association.now } })

-- The states that an association with `n` goroutines reaches.
pub data Reach (timeout n : ℕ) : System → Type 0 where
  start :
      (now : ℕ)
      → Reach timeout n (record {
        association = (new_association timeout now none).0;
        threads = replicate n (idle none);
      })
  later : {s t : System} → Reach timeout n s → Step s t → Reach timeout n t
