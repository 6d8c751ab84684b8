-- ===== src/Intercept.antt =====
-- network/dnsintercept/packet_relay.go: the parent association and its sub-associations. A stretch of
-- code under the mutex is one function of what the goroutines share, and Intercept/Threads runs the
-- goroutines. The two relays, their senders and receivers and the handler are not code of this
-- package: a sender is a number, and the model keeps which of them are closed. What would panic, or
-- block with the mutex held, is the place `crashed` of a goroutine.
pub mod Threads
pub mod Counts
pub mod Senders
pub mod Logs
pub mod Safety
pub mod Shutdown
pub mod Wakes
pub mod Reached
use bfx_outline_sdk.Prelude.{
  suc, ltb, ℕ, ◌+◌, ◌-◌, ◌==◌, ◌||◌, ◌&&◌, not, Bool, true, false, Option, none, some, [], ◌∷◌,
  List, if◌then◌else◌,
}
use bfx_outline_sdk.Io.{Bytes, GoError, Fault, message}
use bfx_outline_sdk.Truncate.{AddrPort, err_closed}

pub data DefState : Type 0 where
  state_idle state_initializing state_initialized : DefState

-- interceptAssoc, and the world around it: `next_sender` counts the senders that NewAssociation gave,
-- `closed_sender` are those that are closed, `default_calls` counts NewAssociation of defaultRelay,
-- `sent` are the calls of SendPacket of a DNS sender and `delivered` those of the parent's handler from
-- a DNS receiver. `chan_closes` counts the calls of close on closeChan, of which the second would panic,
-- and `broadcasts` those of Broadcast on cond. `handler` tells whether the handler is set, and handlerReady closed.
pub record Assoc : Type 0 where
  pub is_closed : Bool
  pub chan_closes : ℕ
  pub broadcasts : ℕ
  pub active_count : ℕ
  pub def_state : DefState
  pub def_sender : Option ℕ
  pub def_init_err : Fault
  pub def_receiver : Option ℕ
  pub dns_senders : ℕ → Bool
  pub handler : Bool
  pub next_sender : ℕ
  pub closed_sender : ℕ → Bool
  pub default_calls : ℕ
  pub sent : List (Bytes × AddrPort)
  pub delivered : List (Bytes × AddrPort)

abbrev pub new_assoc : Assoc
new_assoc = record {
  is_closed = false;
  chan_closes = 0;
  broadcasts = 0;
  active_count = 0;
  def_state = state_idle;
  def_sender = none;
  def_init_err = none;
  def_receiver = none;
  dns_senders = λ id. false;
  handler = false;
  next_sender = 0;
  closed_sender = λ id. false;
  default_calls = 0;
  sent = [];
  delivered = [];
}

-- Whether a receive from closeChan goes on.
abbrev pub chan_closed : Assoc → Bool
chan_closed a = ltb 0 a.chan_closes

-- Where a goroutine stands, with the local variables that are live there. One that waits on cond keeps the
-- number of the calls of Broadcast before.
pub data Pc : Type 0 where
  idle : Pc
  query : Bytes → Pc
  creating : Bytes → Pc
  created : Bytes → ℕ → Pc
  sending : Bytes → ℕ → Pc
  receiving : ℕ → Bool → Pc
  answering : ℕ → Bytes → Pc
  answered : ℕ → Pc
  removing : ℕ → Pc
  closing : ℕ → Pc
  releasing : Pc
  default_start : Bytes → AddrPort → Pc
  default_waiting : Bytes → AddrPort → ℕ → Pc
  default_creating : Bytes → AddrPort → Pc
  default_created : Bytes → AddrPort → ℕ → Pc
  default_failed : GoError → Pc
  passing : Bytes → AddrPort → ℕ → Pc
  receive_start : Pc
  selecting : Pc
  running : ℕ → Pc
  run_releasing : Pc
  awaiting : Pc
  crashed : Pc

-- Whether a sender is this one.
abbrev pub is_sender : ℕ → Option ℕ → Bool
is_sender id none = false
is_sender id (some s) = s == id

abbrev pub close_sender : ℕ → Assoc → Assoc
close_sender s a = record a { closed_sender = λ id. s == id || a.closed_sender id }

-- closeLocked.
unfoldable pub close_locked : Assoc → Assoc
close_locked a = record a {
  is_closed = true;
  chan_closes = suc a.chan_closes;
  broadcasts = suc a.broadcasts;
  closed_sender = λ id. is_sender id a.def_sender || a.dns_senders id || a.closed_sender id;
}

-- Release. The count is an int of the code; it is positive at every call, so that it never falls
-- below zero.
unfoldable pub release : Assoc → Assoc
release a =
    let a' : Assoc = record a { active_count = a.active_count - 1 } in
    if a'.active_count == 0 && not a.is_closed then close_locked a' else a'

unfoldable pub close : Assoc → Assoc × Fault
close a = if a.is_closed then (a, some err_closed) else (close_locked a, none)

-- handleDNSQuery up to its first Unlock.
unfoldable pub begin_query : Bytes → Assoc → Assoc × Pc
begin_query p a =
    if a.is_closed then (a, idle) else (record a { active_count = a.active_count + 1 }, creating p)

-- Its second stretch under the mutex.
unfoldable pub register : Bytes → ℕ → Assoc → Assoc × Pc
register p s a =
    if a.is_closed
    then (a, closing s)
    else (record a { dns_senders = λ id. s == id || a.dns_senders id }, sending p s)

unfoldable pub remove_dns_sender : ℕ → Assoc → Assoc
remove_dns_sender s a = record a { dns_senders = λ id. not (s == id) && a.dns_senders id }

-- What SendPacket does with the sender and the error that are cached.
abbrev pub use_cached : Bytes → AddrPort → Fault → Option ℕ → Pc
use_cached p d (some e) s = idle
use_cached p d none (some s) = passing p d s
use_cached p d none none = crashed

-- getOrCreateDefaultSender up to its first Unlock, or to a Wait, behind its test for a closed
-- association; woken, it goes on in the same way.
abbrev pub get_default_open : Bytes → AddrPort → DefState → Assoc → Assoc × Pc
get_default_open p d state_initializing a = (a, default_waiting p d a.broadcasts)
get_default_open p d state_initialized a = (a, use_cached p d a.def_init_err a.def_sender)
get_default_open p d state_idle a =
    (record a { def_state = state_initializing }, default_creating p d)

unfoldable pub get_default : Bytes → AddrPort → Assoc → Assoc × Pc
get_default p d a = if a.is_closed then (a, idle) else get_default_open p d a.def_state a

-- A goroutine in Wait: a Broadcast since wakes it, and it tests the same again.
unfoldable pub wake : Bytes → AddrPort → ℕ → Assoc → Assoc × Pc
wake p d before a =
    if ltb before a.broadcasts then get_default p d a else (a, default_waiting p d before)

-- The receiver goes into the channel, which has room for one.
abbrev pub offer_receiver : Bytes → AddrPort → ℕ → Option ℕ → Assoc → Assoc × Pc
offer_receiver p d s none a = (record a { def_receiver = some s }, passing p d s)
offer_receiver p d s (some r) a = (a, crashed)

-- Its second stretch, when NewAssociation gave a sender, and when it failed.
unfoldable pub install_default : Bytes → AddrPort → ℕ → Assoc → Assoc × Pc
install_default p d s a =
    let installed : Assoc = record a {
      def_state = state_initialized;
      def_sender = some s;
      def_init_err = none;
      active_count = a.active_count + 1;
      broadcasts = suc a.broadcasts;
    } in
    if a.is_closed
    then (
      close_sender s (record a {
        def_state = state_initialized;
        def_init_err = some err_closed;
        broadcasts = suc a.broadcasts;
      }),
      idle,
    )
    else offer_receiver p d s a.def_receiver installed

unfoldable pub install_failure : GoError → Assoc → Assoc × Pc
install_failure e a =
    if a.is_closed
    then (
      record a {
        def_state = state_initialized;
        def_init_err = some err_closed;
        broadcasts = suc a.broadcasts;
      },
      idle,
    )
    else (
      record a {
        def_state = state_initialized;
        def_sender = none;
        def_init_err = some e;
        broadcasts = suc a.broadcasts;
      },
      idle,
    )

-- ReceivePackets up to its Unlock.
unfoldable pub start_receiving : Assoc → Assoc × Pc
start_receiving a =
    if a.is_closed
    then (a, idle)
    else if a.handler
    then (a, idle)
    else (record a { handler = true }, selecting)

abbrev pub same_bytes : Bytes → Bytes → Bool
same_bytes [] [] = true
same_bytes (x ∷ p) (y ∷ q) = x == y && same_bytes p q
same_bytes _ _ = false

-- `unmap` is Addr.Unmap of net/netip.
unfoldable pub is_same_addr_port : (Bytes → Bytes) → AddrPort → AddrPort → Bool
is_same_addr_port unmap a b = same_bytes (unmap a.addr) (unmap b.addr) && a.port == b.port
