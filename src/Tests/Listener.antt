-- ===== src/Tests/Listener.antt =====
-- Tests and instances for the relay over a packet listener.
use bfx_outline_sdk.Prelude.{
  ◌⊎◌, inl, ◌+◌, ◌≡◌, true, false, none, some, List, [], ◌∷◌, total, refl,
}
use bfx_outline_sdk.Prelude.Int.{negsuc}
use bfx_outline_sdk.Io.{eof, Fault}
use bfx_outline_sdk.Relay.Timeout.{Packet}
use bfx_outline_sdk.Relay.Listener.{
  set_write_idle_timeout, Association, Pc, idle, getting, reading, read_failed, read_closing,
  stopped, refused, Call, send, shut, receive, Read, short, failed, arrived, Answer,
  refresh_deadline, get_packet_conn, close, step, new_association, System, turn, tick, Reach, start,
  later,
}
use bfx_outline_sdk.Relay.Listener.Kept.{closes, crashes, stops}
use bfx_outline_sdk.Relay.Listener.Results.{Reach-releases}

abbrev packet : Packet
packet = (1 ∷ [], record { addr = 8 ∷ []; port = 53 })

abbrev answer : Call → Read → Fault → Answer
answer c r e = record { call = c; read = r; err = e }

-- One goroutine, its answers in order.
abbrev run : List Answer → Association × Pc → Association × Pc
run [] x = x
run (o ∷ os) x = run os (step o x.0 x.1)

-- The time has come; the read fails, so the association is closed, and nothing is sent any more.
after_timeout :
    run
      (answer receive short none
        ∷ answer shut short none
        ∷ answer shut (failed eof) none
        ∷ answer shut short none
        ∷ answer shut short none
        ∷ [])
      ((new_association 5 10 none).0, idle none)
    ≡ (
      record (new_association 5 10 none).0 { closed = true; has_conn = false; conn_closes = 1 },
      stopped eof,
    )
unfolding new_association step refresh_deadline get_packet_conn close
after_timeout = refl

-- A source that does not parse ends ReceivePackets, and the association stays open.
bad_source :
    run
      (answer receive short none ∷ answer shut (arrived [] (inl eof)) none ∷ [])
      ((new_association 5 10 none).0, idle none)
    ≡ ((new_association 5 10 none).0, refused eof)
unfolding new_association step
bad_source = refl

-- A timeout that is not positive is refused.
keeps_timeout : (set_write_idle_timeout (negsuc 4) 30).0 ≡ 30
unfolding set_write_idle_timeout
keeps_timeout = refl

-- When SetDeadline fails at first, the connection is closed.
no_deadline : (new_association 5 10 (some eof)).0.conn_closes ≡ 1
unfolding new_association close
no_deadline = refl

abbrev opened : Association
opened = (new_association 5 10 none).0

abbrev failing : System
failing = record {
  association = record opened { now = 11; closed = true; has_conn = false };
  threads = idle none ∷ read_closing eof ∷ [];
}

reach_failing : Reach 5 2 failing
unfolding new_association step close
reach_failing =
    let a = answer receive (failed eof) none in
    let one = later (later (start 10) tick) (turn (idle none ∷ []) [] (idle none) a refl) in
    let two = later one (turn (idle none ∷ []) [] reading a refl) in
    later two (turn (idle none ∷ []) [] (read_failed eof) a refl)

Reach-releases_example :
    (failing.association.conn_closes + total closes failing.threads ≡ 1)
    × (total crashes failing.threads ≡ 0)
    × (failing.association.late_deadlines ≡ 0)
    × ((total stops failing.threads ≡ 0) ⊎ (failing.association.closed ≡ true))
Reach-releases_example = Reach-releases reach_failing

abbrev sending : System
sending = record {
  association = record opened { now = 11; deadline = 16; refreshed = 11 };
  threads = getting packet ∷ [];
}

reach_sending : Reach 5 1 sending
unfolding new_association step refresh_deadline
reach_sending =
    later (later (start 10) tick) (turn [] [] (idle none) (answer (send packet) short none) refl)
