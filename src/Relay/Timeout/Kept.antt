-- ===== src/Relay/Timeout/Kept.antt =====
-- network/packetrelay/timeout_packet_relay.go: what every step keeps, by counts of goroutines.
use bfx_outline_sdk.Prelude.{
  ℕ, ◌+◌, ◌≡◌, ◌≤◌, true, false, none, some, List, [], ◌∷◌, ◌++◌, replicate, All, All-append, arith,
  bit, total, total-split, total-none, total-append, subst, ap, ◌∙◌, sym, refl,
}
use bfx_outline_sdk.Io.{Fault, is_some}
use bfx_outline_sdk.Relay.Timeout.{
  Packet, Timed, Pc, idle, checking, forwarding, closing, crashed, Call, send, shut, new_timed,
  send_packet, check_timeout, close, step, System, Step, turn, tick, fire, Reach, start, later,
}

abbrev pub is_closing : Pc → ℕ
is_closing closing = 1
is_closing _ = 0

abbrev pub is_crashed : Pc → ℕ
is_crashed crashed = 1
is_crashed _ = 0

abbrev pub is_checking : Pc → ℕ
is_checking checking = 1
is_checking _ = 0

-- A weight of packets, for the packet that a goroutine is about to give to the inner sender.
abbrev pub in_hand : (Packet → ℕ) → Pc → ℕ
in_hand g (forwarding p) = g p
in_hand g _ = 0

-- The weights of the packets that were accepted.
abbrev pub accepted_total : (Packet → ℕ) → List (ℕ × Packet) → ℕ
accepted_total g xs = total (λ x. g x.1) xs

-- No packet was accepted after a time.
abbrev pub By : ℕ → List (ℕ × Packet) → Type 0
By t = All (λ x. x.0 ≤ t)

-- The state, with what a weight of the goroutines sums up to, and a weight of packets.
pub record Kept (g : Packet → ℕ) (timeout : ℕ) (s : Timed) (v : (Pc → ℕ) → ℕ) : Type 0 where
  pub constant : s.timeout ≡ timeout
  pub once : s.inner_closes + v is_closing ≡ bit s.closed
  pub inner : bit s.has_inner + bit s.closed ≡ 1
  pub sound : v is_crashed ≡ 0
  pub one_check : v is_checking + bit (is_some s.timer) ≤ 1
  pub armed : s.closed ≡ false → v is_checking + bit (is_some s.timer) ≡ 1
  pub due : (d : ℕ) → s.timer ≡ some d → d ≤ s.last_activity + timeout
  pub past : s.last_activity ≤ s.now
  pub sent : accepted_total g s.accepted ≡ total g s.forwarded + v (in_hand g)
  pub recent : By s.last_activity s.accepted
  pub expired_closed : (t : ℕ) → s.expired ≡ some t → s.closed ≡ true
  pub expired_late : (t : ℕ) → s.expired ≡ some t → (t ≤ s.now) × (s.last_activity + timeout ≤ t)

-- The goroutine at `p` and the rest.
abbrev pub with_others : ((Pc → ℕ) → ℕ) → Pc → (Pc → ℕ) → ℕ
with_others r p f = f p + r f

By-mono : (t u : ℕ) (xs : List (ℕ × Packet)) → t ≤ u → By t xs → By u xs
By-mono t u [] le h = tt
By-mono t u (x ∷ xs) le (h, hs) = (omega arith, By-mono t u xs le hs)

send_packet-Kept :
    (g : Packet → ℕ) (timeout : ℕ) (r : (Pc → ℕ) → ℕ) (s : Timed) (e : Fault) (p : Packet)
    → Kept g timeout s (with_others r (idle e))
    → let x = send_packet p s in Kept g timeout x.0 (with_others r x.1)
unfolding send_packet
send_packet-Kept g timeout r s e p h =
    let all : By s.now (s.accepted ++ (s.now, p) ∷ []) =
      All-append (λ x. x.0 ≤ s.now) s.accepted ((s.now, p) ∷ [])
        (By-mono s.last_activity s.now s.accepted h.past h.recent) (omega arith, tt) in
    ground (arith, h, all, total-append (λ (x : ℕ × Packet). g x.1) s.accepted ((s.now, p) ∷ []))

close-Kept :
    (g : Packet → ℕ) (timeout : ℕ) (r : (Pc → ℕ) → ℕ) (s : Timed) (e : Fault)
    → Kept g timeout s (with_others r (idle e))
    → let x = close s in Kept g timeout x.0 (with_others r x.1)
unfolding close
close-Kept g timeout r s e h = ground (arith, h)

check_timeout-Kept :
    (g : Packet → ℕ) (timeout : ℕ) (r : (Pc → ℕ) → ℕ) (s : Timed)
    → Kept g timeout s (with_others r checking)
    → let x = check_timeout s in Kept g timeout x.0 (with_others r x.1)
unfolding check_timeout
check_timeout-Kept g timeout r s h = ground (arith, h)

step-Kept :
    (g : Packet → ℕ) (timeout : ℕ) (r : (Pc → ℕ) → ℕ) (c : Call) (e : Fault) (s : Timed) (p : Pc)
    → Kept g timeout s (with_others r p)
    → let x = step c e s p in Kept g timeout x.0 (with_others r x.1)
unfolding step
step-Kept g timeout r (send p) e s (idle a) h = send_packet-Kept g timeout r s a p h
step-Kept g timeout r shut e s (idle a) h = close-Kept g timeout r s a h
step-Kept g timeout r c e s checking h = check_timeout-Kept g timeout r s h
step-Kept g timeout r c e s (forwarding p) h =
    ground (arith, h, total-append g s.forwarded (p ∷ []))
step-Kept g timeout r c e s closing h = ground (arith, h)
step-Kept g timeout r c e s crashed h = h

-- The sums over the goroutines.
abbrev pub sums : List Pc → (Pc → ℕ) → ℕ
sums ts f = total f ts

abbrev others : List Pc → List Pc → (Pc → ℕ) → ℕ
others before after f = total f before + total f after

split_path :
    (before after : List Pc) (p : Pc)
    → sums (before ++ p ∷ after) ≡ with_others (others before after) p
split_path before after p = λ i f. total-split f before after p i

Step-Kept :
    (g : Packet → ℕ) (timeout : ℕ) {s t : System}
    → Step s t
    → Kept g timeout s.timed (sums s.threads)
    → Kept g timeout t.timed (sums t.threads)
Step-Kept g timeout {s} (turn before after p c e q) h =
    let x = step c e s.timed p in
    subst (Kept g timeout x.0) (sym (split_path before after x.1)) (
      step-Kept g timeout (others before after) c e s.timed p
        (subst (Kept g timeout s.timed) (ap sums q ∙ split_path before after p) h))
Step-Kept g timeout {s} tick h = ground (arith, h)
Step-Kept g timeout {s} (fire d q le) h = ground (arith, h)

start-Kept :
    (g : Packet → ℕ) (timeout n now : ℕ)
    → Kept g timeout (new_timed timeout now) (sums (replicate n (idle none)))
unfolding new_timed
start-Kept g timeout n now = ground (
  arith,
  total-none n is_closing (idle none) refl,
  total-none n is_crashed (idle none) refl,
  total-none n is_checking (idle none) refl,
  total-none n (in_hand g) (idle none) refl,
)

pub Reach-Kept :
    (g : Packet → ℕ) {timeout n : ℕ} {s : System}
    → Reach timeout n s
    → Kept g timeout s.timed (sums s.threads)
Reach-Kept g {timeout} {n} (start now) = start-Kept g timeout n now
Reach-Kept g {timeout} (later r st) = Step-Kept g timeout st (Reach-Kept g r)
