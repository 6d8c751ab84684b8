-- ===== src/Truncate/Queue.antt =====
-- The channel of the truncation relay over any interleaving of the calls of its two ends.
pub mod Steps
pub mod Receive
use bfx_outline_sdk.Prelude.{
  ℕ, ◌+◌, ◌≡◌, ◌<◌, ◌≤◌, ◌⊎◌, inl, inr, Bool, Bool-cases, true, false, ◌==◌, not, ltb, some, none,
  refl, sym, ap, ◌∙◌, [], ◌∷◌, ◌++◌, arith, List, length, if◌then◌else◌, ◌≢◌,
}
use bfx_outline_sdk.Io.{Bytes, GoError, Fault, message, wrapped}
use bfx_outline_sdk.Truncate.{
  Association, DnsPacket, AddrPort, send_packet, push, truncated, queue_size, standard_dns_port,
  dns_udp_min_msg_len, err_closed, err_queue_full, err_port_unreachable,
}

abbrev pub response : Bytes → AddrPort → DnsPacket
response p destination = record { payload = truncated p; source = destination }

-- The five ways in which SendPacket ends.
pub data Sending (s : Association) (p : Bytes) (d : AddrPort) (r : Association × Fault)
    : Type 0 where
  queued :
      s.closed ≡ false
      → d.port ≡ 53
      → 12 ≤ length p
      → length s.ch < 16
      → r ≡ (record s { ch = s.ch ++ response p d ∷ [] }, none)
      → Sending s p d r
  full :
      s.closed ≡ false
      → d.port ≡ 53
      → 12 ≤ length p
      → 16 ≤ length s.ch
      → r ≡ (s, some err_queue_full)
      → Sending s p d r
  short :
      s.closed ≡ false
      → d.port ≡ 53
      → length p < 12
      → r ≡ (s, some (message "invalid DNS message"))
      → Sending s p d r
  other_port :
      s.closed ≡ false
      → d.port ≢ 53
      → r ≡ (s, some (wrapped "UDP traffic to non-DNS port is not supported" err_port_unreachable))
      → Sending s p d r
  after_close : s.closed ≡ true → r ≡ (s, some err_closed) → Sending s p d r

-- What SendPacket does: it queues the response of a DNS request while there is room, and otherwise
-- changes nothing and says why.
pub send_packet-Sending :
    (s : Association) (p : Bytes) (d : AddrPort) → Sending s p d (send_packet s p d)
unfolding send_packet push
send_packet-Sending s p d =
    let on_room : Bool → Association × Fault = λ b.
      if b then (record s { ch = s.ch ++ response p d ∷ [] }, none) else (s, some err_queue_full) in
    let room = ltb (length s.ch) queue_size in
    let on_short : Bool → Association × Fault =
      λ b. if b then (s, some (message "invalid DNS message")) else on_room room in
    let is_short = ltb (length p) dns_udp_min_msg_len in
    let on_port : Bool → Association × Fault = λ b.
      if not b
      then (s, some (wrapped "UDP traffic to non-DNS port is not supported" err_port_unreachable))
      else on_short is_short in
    let same_port = d.port == standard_dns_port in
    let on_closed : Bool → Association × Fault =
      λ b. if b then (s, some err_closed) else on_port same_port in
    elim (Bool-cases s.closed) [
      | inl c ↦ after_close c (ap on_closed c)
      | inr c ↦ elim (Bool-cases same_port) [
        | inr e ↦ other_port c (ground arith) (ap on_closed c ∙ ap on_port e)
        | inl e ↦ elim (Bool-cases is_short) [
          | inl l ↦
              short c (ground arith) (ground arith) (ap on_closed c ∙ ap on_port e ∙ ap on_short l)
          | inr l ↦ elim (Bool-cases room) [
            | inl f ↦
                queued c (ground arith) (ground arith) (ground arith)
                  (ap on_closed c ∙ ap on_port e ∙ ap on_short l ∙ ap on_room f)
            | inr f ↦
                full c (ground arith) (ground arith) (ground arith)
                  (ap on_closed c ∙ ap on_port e ∙ ap on_short l ∙ ap on_room f)
          ]
        ]
      ]
    ]
