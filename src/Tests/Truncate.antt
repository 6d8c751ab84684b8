-- ===== src/Tests/Truncate.antt =====
-- Tests and instances for the DNS truncation relay.
use bfx_outline_sdk.Prelude.{
  ◌≡◌, ◌≤◌, ◌++◌, none, some, [], ◌∷◌, arith, refl, true, false, replicate,
}
use bfx_outline_sdk.Io.{Bytes, Fault}
use bfx_outline_sdk.Truncate.{
  Association, AddrPort, DnsPacket, new_association, send_packet, push, truncated, close,
  err_queue_full,
}
use bfx_outline_sdk.Truncate.Queue.{response}
use bfx_outline_sdk.Truncate.Queue.Steps.{
  Step, Steps, here, next, sends, closes, takes, Steps-in_order,
}

abbrev query : Bytes
query = 7 ∷ 8 ∷ 1 ∷ 5 ∷ 0 ∷ 1 ∷ 0 ∷ 0 ∷ 0 ∷ 0 ∷ 0 ∷ 0 ∷ 3 ∷ []

abbrev resolver : AddrPort
resolver = record { addr = 8 ∷ 8 ∷ 8 ∷ 8 ∷ []; port = 53 }

truncated_runs : truncated query ≡ 7 ∷ 8 ∷ 131 ∷ 0 ∷ 0 ∷ 1 ∷ 0 ∷ 1 ∷ 0 ∷ 0 ∷ 0 ∷ 0 ∷ 3 ∷ []
unfolding truncated
truncated_runs = refl

abbrev queued_one : Association
queued_one = record { closed = false; ch = response query resolver ∷ [] }

full_runs :
    send_packet
      (record { closed = false; ch = replicate 16 (response query resolver) })
      query
      resolver
    ≡ (record { closed = false; ch = replicate 16 (response query resolver) }, some err_queue_full)
unfolding send_packet push
full_runs = refl

abbrev drained : Association
drained = record { closed = true; ch = [] }

one_query :
    Steps new_association (response query resolver ∷ []) (response query resolver ∷ []) drained
unfolding send_packet push close
one_query =
    let r = response query resolver in
    let closed_one : Association = record queued_one { closed = true } in
    let sent : Step new_association (r ∷ []) [] queued_one = sends query resolver refl refl refl in
    let shut : Step queued_one [] [] closed_one = closes refl refl refl in
    let taken : Step closed_one [] (r ∷ []) drained = takes r refl refl refl refl in
    next (next (next here sent) shut) taken

Steps-in_order_example :
    ((response query resolver ∷ []) ++ [] ≡ [] ++ response query resolver ∷ [])
    × (0 ≤ 16)
    × (false ≡ true → (true ≡ true) × (response query resolver ∷ [] ≡ []))
Steps-in_order_example =
    Steps-in_order new_association drained (response query resolver ∷ [])
      (response query resolver ∷ []) (omega arith) one_query

abbrev accept : DnsPacket → Fault
accept pkt = none
