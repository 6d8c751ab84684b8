-- ===== src/Truncate/Queue/Receive.antt =====
-- ReceivePackets: which packets it hands over, and when it returns.
use bfx_outline_sdk.Prelude.{
  subst, ◌≡◌, inl, inr, Bool, true, false, some, none, refl, sym, ap, [], ◌∷◌, ◌++◌, List, All,
  Option-cases,
}
use bfx_outline_sdk.Io.{GoError, Fault}
use bfx_outline_sdk.Truncate.{
  Association, DnsPacket, Outcome, returned, waiting, receive_loop, receive_packets,
}

-- The packets that the handler took without an error, what is left in the channel, and why the loop
-- came to an end: the channel is closed, or still open, or the handler refused a packet.
pub data Receiving (handle : DnsPacket → Fault) (closed : Bool) (ch : List DnsPacket)
    (r : List DnsPacket × Outcome) : Type 0 where
  all_handled :
      All (λ pkt. handle pkt ≡ none) ch
      → closed ≡ true
      → r ≡ ([], returned none)
      → Receiving handle closed ch r
  waits :
      All (λ pkt. handle pkt ≡ none) ch
      → closed ≡ false
      → r ≡ ([], waiting)
      → Receiving handle closed ch r
  stopped :
      (before : List DnsPacket) (pkt : DnsPacket) (after : List DnsPacket) (e : GoError)
      → ch ≡ before ++ pkt ∷ after
      → All (λ pkt. handle pkt ≡ none) before
      → handle pkt ≡ some e
      → r ≡ (after, returned (some e))
      → Receiving handle closed ch r

Receiving-cons :
    (handle : DnsPacket → Fault) (closed : Bool) (pkt : DnsPacket) (ch : List DnsPacket)
    (r : List DnsPacket × Outcome)
    → handle pkt ≡ none
    → Receiving handle closed ch r
    → Receiving handle closed (pkt ∷ ch) r
Receiving-cons handle closed pkt ch r h (all_handled hs c e) = all_handled (h, hs) c e
Receiving-cons handle closed pkt ch r h (waits hs c e) = waits (h, hs) c e
Receiving-cons handle closed pkt ch r h (stopped before q after err split hs k e) =
    stopped (pkt ∷ before) q after err (ap (◌∷◌ pkt) split) (h, hs) k e

receive_loop-Receiving :
    (handle : DnsPacket → Fault) (closed : Bool) (ch : List DnsPacket)
    → Receiving handle closed ch (receive_loop handle closed ch)
unfolding receive_loop
receive_loop-Receiving handle true [] = all_handled tt refl refl
receive_loop-Receiving handle false [] = waits tt refl refl
receive_loop-Receiving handle closed (pkt ∷ rest) =
    let more = receive_loop handle closed rest in
    let branch : Fault → List DnsPacket × Outcome =
      λ e. elim e [ some e ↦ (rest, returned (some e)) | none ↦ more ] in
    elim (Option-cases (handle pkt)) [
      | inl h ↦
          subst (Receiving handle closed (pkt ∷ rest)) (sym (ap branch h)) (
            Receiving-cons handle closed pkt rest more h
              (receive_loop-Receiving handle closed rest))
      | inr (e, h) ↦ stopped [] pkt rest e refl tt h (ap branch h)
    ]

-- What is in the channel is handed over in order: all of it, and ReceivePackets returns without an
-- error if the channel is closed and waits if it is not; or all up to the first packet that the
-- handler refuses, and its error is returned and the packets behind it are left.
pub receive_packets-Receiving :
    (handle : DnsPacket → Fault) (s : Association)
    → let (s', outcome) = receive_packets handle s in
      Receiving handle s.closed s.ch (s'.ch, outcome)
unfolding receive_packets
receive_packets-Receiving handle s = receive_loop-Receiving handle s.closed s.ch
