-- ===== src/Eyeballs.antt =====
-- transport/happyeyeballs.go: DialStream of HappyEyeballsStreamDialer. Time is not modelled: a delay
-- ends at any time. The resolver and the dialer are not code of this file; what they answer comes as
-- events.
pub mod Attempts
pub mod Rounds
pub mod Next
pub mod Results
pub mod Bound
pub mod Resolve
pub mod Lookups
use bfx_outline_sdk.Prelude.{
  inr, ℕ, zero, ◌+◌, ◌-◌, ◌==◌, ◌||◌, ◌&&◌, not, Bool, true, false, Option, none, some, [], ◌∷◌,
  ◌++◌, List, if◌then◌else◌, length,
}
use bfx_outline_sdk.Socks5.Address.{Net, ParsedIp}
use bfx_outline_sdk.Io.{Fallible, ◌>>=◌, wrap, join, Bytes, GoError, Fault, message, joined}

-- A valid netip.Addr, with the answer of Is6.
pub record Addr : Type 0 where
  pub is6 : Bool
  pub bytes : Bytes

-- readyToDialCh: nil, the resolution delay, or attemptDelayCh.
pub data ReadyToDial : Type 0 where
  never resolution_delay attempt_delay : ReadyToDial

-- The variables of the loop; `resolving` tells whether resolutionCh is not nil, and `dialing` are the
-- addresses whose goroutine has not delivered its result. `found`, `tried` and `failed` are kept for
-- the statements: what the lookups gave, what was dialled, and what was dialled and failed.
pub record Race : Type 0 where
  pub ip4s : List Addr
  pub ip6s : List Addr
  pub last_dialed : Option Addr
  pub lookup_err : Fault
  pub dial_err : Fault
  pub resolving : Bool
  pub ready : ReadyToDial
  pub ops_pending : ℕ
  pub dialing : List Addr
  pub found : List Addr
  pub tried : List Addr
  pub failed : List Addr

abbrev pub new_race : Race
new_race = record {
  ip4s = [];
  ip6s = [];
  last_dialed = none;
  lookup_err = none;
  dial_err = none;
  resolving = true;
  ready = never;
  ops_pending = 1;
  dialing = [];
  found = [];
  tried = [];
  failed = [];
}

abbrev pub is_empty : List Addr → Bool
is_empty [] = true
is_empty (_ ∷ _) = false

abbrev pub is_valid : Option Addr → Bool
is_valid none = false
is_valid (some _) = true

abbrev pub delayed : ReadyToDial → ReadyToDial
delayed never = resolution_delay
delayed r = r

-- The head of the loop sets readyToDialCh.
unfoldable pub prepare : Race → Race
prepare s = record s {
  ready =
      if is_empty s.ip6s && is_empty s.ip4s
      then never
      else if not (is_valid s.last_dialed) && is_empty s.ip6s && s.resolving
      then delayed s.ready
      else attempt_delay;
}

-- The IPs of a lookup, by their family.
abbrev pub add_ips : List Addr → Race → Race
add_ips [] s = s
add_ips (ip ∷ ips) s = add_ips ips (
    if ip.is6 then record s { ip6s = s.ip6s ++ ip ∷ [] } else record s { ip4s = s.ip4s ++ ip ∷ [] })

-- A result of a lookup. The IPs that come with an error are dropped.
unfoldable pub on_lookup : List Addr → Fault → Race → Race
on_lookup ips (some e) s = record s { lookup_err = some (join s.lookup_err e) }
on_lookup ips none s =
    add_ips ips (record s { ops_pending = s.ops_pending + length ips; found = s.found ++ ips })

-- The channel of the lookups is closed.
unfoldable pub on_lookup_done : Race → Race
on_lookup_done s = record s { ops_pending = s.ops_pending - 1; resolving = false }

abbrev pub is_6 : Option Addr → Bool
is_6 none = false
is_6 (some a) = a.is6

-- The address is dialled by a new goroutine.
abbrev pub attempt : Addr → Race → Race
attempt a s = record s {
  last_dialed = some a;
  dialing = s.dialing ++ a ∷ [];
  tried = s.tried ++ a ∷ [];
}

-- The first of a list, which panics if there is none.
abbrev pub attempt_4 : List Addr → Race → Option Race
attempt_4 [] s = none
attempt_4 (a ∷ rest) s = some (attempt a (record s { ip4s = rest }))

abbrev pub attempt_6 : List Addr → Race → Option Race
attempt_6 [] s = none
attempt_6 (a ∷ rest) s = some (attempt a (record s { ip6s = rest }))

-- A new attempt; `none` is a panic.
unfoldable pub on_ready : Race → Option Race
on_ready s =
    if is_empty s.ip6s || (is_6 s.last_dialed && not (is_empty s.ip4s))
    then attempt_4 s.ip4s s
    else attempt_6 s.ip6s s

-- A dial that failed.
unfoldable pub on_dial_error : Addr → GoError → Race → Race
on_dial_error a e s = record s {
  ops_pending = s.ops_pending - 1;
  dial_err = some (join s.dial_err e);
  failed = s.failed ++ a ∷ [];
}

-- What DialStream returns when the loop has come to its end.
abbrev pub final_error : Fault → Fault → GoError
final_error (some e) lookup = e
final_error none (some e) = e
final_error none none = message "address lookup returned no IPs"

-- What happens at the select: a result of a lookup, the end of the lookups, the delay, a result of the
-- dial at a place in `dialing`, or the end of the context.
pub data Event : Type 0 where
  looked_up : List Addr → Fault → Event
  lookups_done : Event
  delay_over : Event
  dial_failed : (before after : List Addr) → Addr → GoError → Event
  dialed : (before after : List Addr) → Addr → Event
  cancelled : GoError → Event

pub data Result : Type 0 where
  connected : Addr → Result
  failure : GoError → Result
  goes_on : Race → Result
  panicked : Result

abbrev pub or_panic : Option Race → Result
or_panic none = panicked
or_panic (some s) = goes_on s

-- The select of the loop.
unfoldable pub handle : Event → Race → Result
handle (looked_up ips err) s = goes_on (on_lookup ips err s)
handle lookups_done s = goes_on (on_lookup_done s)
handle delay_over s = or_panic (on_ready s)
handle (dial_failed before after a e) s =
    goes_on (on_dial_error a e (record s { dialing = before ++ after }))
handle (dialed before after a) s = connected a
handle (cancelled e) s = failure e

-- One round of the loop.
unfoldable pub dial_round : Event → Race → Result
dial_round e s =
    let event = handle e (prepare s) in
    if s.ops_pending == 0 then failure (final_error s.dial_err s.lookup_err) else event

-- What DialStream does with an address: an IP address is dialled as it is, and for a host name the loop
-- runs, which dials the port at each IP.
pub data Beginning : Type 0 where
  dial_direct : Bytes → Beginning
  dial_host : (hostname port : Bytes) → Beginning

abbrev pub direct_or_host : Bytes → Bytes × Bytes → Option ParsedIp → Beginning
direct_or_host addr hp (some ip) = dial_direct addr
direct_or_host addr hp none = dial_host hp.0 hp.1

-- DialStream before its loop.
unfoldable pub begin_dial : Net → Bytes → Fallible Beginning
begin_dial net addr =
    wrap "failed to parse address" (net.split_host_port addr) >>= λ (hp : Bytes × Bytes).
    inr (direct_or_host addr hp (net.parse_ip hp.0))
