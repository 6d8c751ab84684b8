-- ===== src/Relay/Listener/Results.antt =====
-- network/packetrelay/packet_listener_relay.go: what holds of every association, in any interleaving.
use bfx_outline_sdk.Prelude.{bit, ℕ, ◌+◌, ◌≡◌, Bool, true, false, arith, total, ◌⊎◌}
use bfx_outline_sdk.Relay.Listener.{
  Association, Pc, idle, Call, send, Answer, refresh_deadline, get_packet_conn, close, step, System,
  Reach,
}
use bfx_outline_sdk.Relay.Listener.Kept.{Reach-Kept, closes, crashes, stops}

-- The connection is closed once at most: the calls of its Close, with the goroutines that are about to
-- make one, are one if the association is closed, and none if it is not. No method of a nil connection is called, no deadline
-- is set on a closed connection, and when ReceivePackets has returned an error of the connection, the
-- association is closed.
pub Reach-releases :
    {timeout n : ℕ} {s : System}
    → Reach timeout n s
    → (s.association.conn_closes + total closes s.threads ≡ bit s.association.closed)
      × (total crashes s.threads ≡ 0)
      × (s.association.late_deadlines ≡ 0)
      × ((total stops s.threads ≡ 0) ⊎ (s.association.closed ≡ true))
Reach-releases r = let h = Reach-Kept r in ground (arith, h)

-- A goroutine that is idle and calls SendPacket.
abbrev pub sends : Pc → Call → Bool
sends (idle e) (send p) = true
sends _ _ = false

moves_deadline :
    (timeout : ℕ) (o : Answer) (a : Association) (p : Pc)
    → a.write_idle_timeout ≡ timeout
    → ((step o a p).0.deadline ≡ a.deadline)
      ⊎ ((sends p o.call ≡ true) × (a.closed ≡ false) × ((step o a p).0.deadline ≡ a.now + timeout))
unfolding step refresh_deadline get_packet_conn close
moves_deadline timeout o a (idle e) c = ground arith
moves_deadline timeout o a p c = ground arith

-- The deadline is that of the write idle timeout after the last packet accepted to be sent, and no step
-- but the start of SendPacket on an open association moves it: packets that come in do not.
pub Reach-deadline :
    {timeout n : ℕ} {s : System}
    → Reach timeout n s
    → (s.association.deadline ≡ s.association.refreshed + timeout)
      × ((o : Answer) (p : Pc)
          → ((step o s.association p).0.deadline ≡ s.association.deadline)
            ⊎ ((sends p o.call ≡ true)
                × (s.association.closed ≡ false)
                × ((step o s.association p).0.deadline ≡ s.association.now + timeout)))
Reach-deadline {timeout} {n} {s} r =
    let h = Reach-Kept r in
    (h.idle_deadline, λ o p. moves_deadline timeout o s.association p h.constant)
