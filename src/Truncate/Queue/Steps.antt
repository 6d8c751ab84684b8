-- ===== src/Truncate/Queue/Steps.antt =====
-- Interleavings of the calls, and what ReceivePackets takes of the channel.
use bfx_outline_sdk.Prelude.{
  ◌≡◌, ◌≤◌, inl, inr, Bool, Bool-cases, true, some, none, refl, sym, ap, ap₂, ◌∙◌, [], ◌∷◌, ◌++◌,
  arith, List, length, if◌then◌else◌, append_assoc, append-nil, length-append,
}
use bfx_outline_sdk.Io.{Bytes, GoError, Fault}
use bfx_outline_sdk.Truncate.{err_closed, Association, DnsPacket, AddrPort, send_packet, close}
use bfx_outline_sdk.Truncate.Queue.{
  after_close, other_port, short, full, queued, Sending, response, send_packet-Sending,
}

-- One call of SendPacket or Close, or one packet that the loop of ReceivePackets takes for its
-- handler: `accepted` are the responses queued, `handled` the packets taken.
pub data Step (s : Association) (accepted handled : List DnsPacket) (s' : Association)
    : Type 0 where
  sends :
      (p : Bytes) (d : AddrPort)
      → send_packet s p d ≡ (s', none)
      → accepted ≡ response p d ∷ []
      → handled ≡ []
      → Step s accepted handled s'
  refuses :
      (p : Bytes) (d : AddrPort) (e : GoError)
      → send_packet s p d ≡ (s', some e)
      → accepted ≡ []
      → handled ≡ []
      → Step s accepted handled s'
  closes : (close s).0 ≡ s' → accepted ≡ [] → handled ≡ [] → Step s accepted handled s'
  takes :
      (pkt : DnsPacket)
      → s.ch ≡ pkt ∷ s'.ch
      → s.closed ≡ s'.closed
      → accepted ≡ []
      → handled ≡ pkt ∷ []
      → Step s accepted handled s'

pub data Steps (s : Association) : List DnsPacket → List DnsPacket → Association → Type 0 where
  here : Steps s [] [] s
  next :
      {a a' h h' : List DnsPacket} {t u : Association}
      → Steps s a h t
      → Step t a' h' u
      → Steps s (a ++ a') (h ++ h') u

-- What a step keeps.
record Keeps (s : Association) (accepted handled : List DnsPacket) (s' : Association) : Type 0 where
  in_order : handled ++ s'.ch ≡ s.ch ++ accepted
  room : length s.ch ≤ 16 → length s'.ch ≤ 16
  stays_closed : s.closed ≡ true → (s'.closed ≡ true) × (accepted ≡ [])

unmoved :
    (s s' : Association) (a h : List DnsPacket)
    → s.ch ≡ s'.ch
    → (s.closed ≡ true → s'.closed ≡ true)
    → a ≡ []
    → h ≡ []
    → Keeps s a h s'
unmoved s s' a h same closed none_a none_h = record {
  in_order =
      ap (λ x. x ++ s'.ch) none_h ∙ sym same ∙ sym (append-nil s.ch) ∙ ap (◌++◌ s.ch) (sym none_a);
  room = λ le. omega (arith, ap length same);
  stays_closed = λ c. (closed c, none_a);
}

sends-Keeps :
    (s s' : Association) (a h : List DnsPacket) (p : Bytes) (d : AddrPort)
    → send_packet s p d ≡ (s', none)
    → a ≡ response p d ∷ []
    → h ≡ []
    → Sending s p d (send_packet s p d)
    → Keeps s a h s'
sends-Keeps s s' a h p d run is_a is_h (queued c port long room r) =
    let after : s' ≡ record s { ch = s.ch ++ response p d ∷ [] } = ap (λ r. r.0) (sym run ∙ r) in
    record {
      in_order = ap₂ (λ x t. x ++ t.ch) is_h after ∙ ap (◌++◌ s.ch) (sym is_a);
      room =
          λ le. omega (arith, ap (λ t. length t.ch) after, length-append s.ch (response p d ∷ []));
      stays_closed = λ closed. absurd (cc (c, closed));
    }
sends-Keeps s s' a h p d run is_a is_h (full c port long room r) = absurd (cc (sym run ∙ r))
sends-Keeps s s' a h p d run is_a is_h (short c port long r) = absurd (cc (sym run ∙ r))
sends-Keeps s s' a h p d run is_a is_h (other_port c port r) = absurd (cc (sym run ∙ r))
sends-Keeps s s' a h p d run is_a is_h (after_close c r) = absurd (cc (sym run ∙ r))

refused :
    (s s' : Association) (p : Bytes) (d : AddrPort) (e : GoError)
    → send_packet s p d ≡ (s', some e)
    → Sending s p d (send_packet s p d)
    → s ≡ s'
refused s s' p d e run (queued c port long room r) = absurd (cc (sym run ∙ r))
refused s s' p d e run (full c port long room r) = ap (λ r. r.0) (sym r ∙ run)
refused s s' p d e run (short c port long r) = ap (λ r. r.0) (sym r ∙ run)
refused s s' p d e run (other_port c port r) = ap (λ r. r.0) (sym r ∙ run)
refused s s' p d e run (after_close c r) = ap (λ r. r.0) (sym r ∙ run)

close-keeps : (s : Association) → ((close s).0.ch ≡ s.ch) × ((close s).0.closed ≡ true)
unfolding close
close-keeps s =
    let branch : Bool → Association × Fault =
      λ b. if b then (s, some err_closed) else (record s { closed = true }, none) in
    elim (Bool-cases s.closed) [
      | inl e ↦ (ap (λ b. (branch b).0.ch) e, ap (λ b. (branch b).0.closed) e ∙ e)
      | inr e ↦ (ap (λ b. (branch b).0.ch) e, ap (λ b. (branch b).0.closed) e)
    ]

Step-Keeps : (s s' : Association) (a h : List DnsPacket) → Step s a h s' → Keeps s a h s'
Step-Keeps s s' a h (sends p d run is_a is_h) =
    sends-Keeps s s' a h p d run is_a is_h (send_packet-Sending s p d)
Step-Keeps s s' a h (refuses p d e run is_a is_h) =
    let same = refused s s' p d e run (send_packet-Sending s p d) in
    unmoved s s' a h (ap (λ t. t.ch) same) (λ c. sym (ap (λ t. t.closed) same) ∙ c) is_a is_h
Step-Keeps s s' a h (closes run is_a is_h) =
    let (ch, closed) = close-keeps s in
    unmoved s s' a h (sym ch ∙ ap (λ t. t.ch) run) (λ c. sym (ap (λ t. t.closed) run) ∙ closed) is_a
      is_h
Step-Keeps s s' a h (takes pkt is_ch same is_a is_h) = record {
  in_order =
      ap (λ x. x ++ s'.ch) is_h ∙ sym is_ch ∙ sym (append-nil s.ch) ∙ ap (◌++◌ s.ch) (sym is_a);
  room = λ le. omega (arith, ap length is_ch);
  stays_closed = λ c. (sym same ∙ c, is_a);
}

-- However the calls of the two ends interleave from `s` on: the packets handled and those still in
-- the channel are those that were there and those accepted since, in order; a channel of at most 16
-- packets stays one; and when `s` is closed nothing is accepted any more.
pub Steps-in_order :
    (s s' : Association) (accepted handled : List DnsPacket)
    → length s.ch ≤ 16
    → Steps s accepted handled s'
    → (handled ++ s'.ch ≡ s.ch ++ accepted)
      × (length s'.ch ≤ 16)
      × (s.closed ≡ true → (s'.closed ≡ true) × (accepted ≡ []))
Steps-in_order s s' accepted handled le here = (sym (append-nil s.ch), le, λ c. (c, refl))
Steps-in_order s s' accepted handled le (next {a} {a'} {h} {h'} {t} steps step) =
    let (order, room, closed) = Steps-in_order s t a h le steps in
    let k = Step-Keeps t s' a' h' step in
    (
      append_assoc h h' s'.ch
          ∙ ap (◌++◌ h) k.in_order
          ∙ sym (append_assoc h t.ch a')
          ∙ ap (λ x. x ++ a') order
          ∙ append_assoc s.ch a a',
      k.room room,
      λ c.
          let (c', none_a) = closed c in
          let (c'', none_a') = k.stays_closed c' in (c'', ap₂ ◌++◌ none_a none_a'),
    )
