-- ===== src/Relay/Listener/Kept.antt =====
-- network/packetrelay/packet_listener_relay.go: what every step keeps, by counts of goroutines.
use bfx_outline_sdk.Prelude.{
  ℕ, ◌+◌, ◌≡◌, ◌≤◌, false, none, List, ◌∷◌, ◌++◌, replicate, arith, bit, total, total-split,
  total-none, subst, ap, ◌∙◌, sym, refl,
}
use bfx_outline_sdk.Relay.Listener.{
  Association, Pc, idle, closing, handling, read_closing, stopped, crashed, Answer,
  refresh_deadline, get_packet_conn, close, step, new_association, System, Step, turn, tick, Reach,
  start, later,
}

-- Goroutines that are about to close the connection.
abbrev pub closes : Pc → ℕ
closes closing = 1
closes (read_closing e) = 1
closes _ = 0

abbrev pub crashes : Pc → ℕ
crashes crashed = 1
crashes _ = 0

-- Calls of ReceivePackets that are past an error of the connection and past the mutex.
abbrev pub stops : Pc → ℕ
stops (read_closing e) = 1
stops (stopped e) = 1
stops _ = 0

abbrev pub handles : Pc → ℕ
handles (handling p) = 1
handles _ = 0

pub record Kept (timeout : ℕ) (a : Association) (v : (Pc → ℕ) → ℕ) : Type 0 where
  pub constant : a.write_idle_timeout ≡ timeout
  pub once : a.conn_closes + v closes ≡ bit a.closed
  pub conn : bit a.has_conn + bit a.closed ≡ 1
  pub sound : v crashes ≡ 0
  pub in_time : a.late_deadlines ≡ 0
  pub stop : a.closed ≡ false → v stops ≡ 0
  pub idle_deadline : a.deadline ≡ a.refreshed + timeout
  pub past : a.refreshed ≤ a.now
  pub passed_on : a.read ≡ a.handled + v handles

abbrev with_others : ((Pc → ℕ) → ℕ) → Pc → (Pc → ℕ) → ℕ
with_others r p f = f p + r f

step-Kept :
    (timeout : ℕ) (r : (Pc → ℕ) → ℕ) (o : Answer) (a : Association) (p : Pc)
    → Kept timeout a (with_others r p)
    → let x = step o a p in Kept timeout x.0 (with_others r x.1)
unfolding step refresh_deadline get_packet_conn close
step-Kept timeout r o a (idle e) h = ground (arith, h)
step-Kept timeout r o a p h = ground (arith, h)

-- The sums over the goroutines.
abbrev pub sums : List Pc → (Pc → ℕ) → ℕ
sums ts f = total f ts

abbrev others : List Pc → List Pc → (Pc → ℕ) → ℕ
others before after f = total f before + total f after

split_path :
    (before after : List Pc) (p : Pc)
    → sums (before ++ p ∷ after) ≡ with_others (others before after) p
split_path before after p = λ i f. total-split f before after p i

Step-Kept :
    (timeout : ℕ) {s t : System}
    → Step s t
    → Kept timeout s.association (sums s.threads)
    → Kept timeout t.association (sums t.threads)
Step-Kept timeout {s} (turn before after p o q) h =
    let x = step o s.association p in
    subst (Kept timeout x.0) (sym (split_path before after x.1)) (
      step-Kept timeout (others before after) o s.association p
        (subst (Kept timeout s.association) (ap sums q ∙ split_path before after p) h))
Step-Kept timeout {s} tick h = ground (arith, h)

start-Kept :
    (timeout n now : ℕ)
    → Kept timeout (new_association timeout now none).0 (sums (replicate n (idle none)))
unfolding new_association
start-Kept timeout n now = ground (
  arith,
  total-none n closes (idle none) refl,
  total-none n crashes (idle none) refl,
  total-none n stops (idle none) refl,
  total-none n handles (idle none) refl,
)

pub Reach-Kept :
    {timeout n : ℕ} {s : System} → Reach timeout n s → Kept timeout s.association (sums s.threads)
Reach-Kept {timeout} {n} (start now) = start-Kept timeout n now
Reach-Kept {timeout} (later r st) = Step-Kept timeout st (Reach-Kept r)
