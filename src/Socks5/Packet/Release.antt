-- ===== src/Socks5/Packet/Release.antt =====
-- What ListenPacket leaves open when it fails.
use bfx_outline_sdk.Prelude.{
  ◌⊎◌, ◌↔◌, none, some, false, ◌∙◌, ap, Bool, Option, inl, inr, ◌≡◌, refl, true, ◌≢◌,
}
use bfx_outline_sdk.Io.{Bytes, GoError, Fallible, wrapped, Writer, Wire}
use bfx_outline_sdk.Io.Source.{Source}
use bfx_outline_sdk.Socks5.Address.{Address, Net, addr_to_string}
use bfx_outline_sdk.Socks5.Request.{Credentials, connect_and_request, Attempt, cmd_udp_associate}
use bfx_outline_sdk.Socks5.Request.Reply.{Releases, connect_and_request-Releases}
use bfx_outline_sdk.Socks5.Packet.{bind_address, listen_packet, any_addr}

module _ (w : Writer) (net : Net) {P : Type 0} (remote : Bytes)
    (dial_packet : Bytes → Fallible P) where
  -- The steps behind connectAndRequest.
  abbrev then_dial : Attempt w net (Address × Source) → Attempt w net P
  then_dial a = elim a.result [
    | inl e ↦ record { conn = a.conn; closed = a.closed; result = inl e }
    | inr x ↦ elim (bind_address net remote x.0) [
      | inl e ↦ record { conn = a.conn; closed = a.closed; result = inl e }
      | inr bind_addr ↦ elim (dial_packet (addr_to_string net bind_addr)) [
        | inl e ↦ record {
          conn = a.conn;
          closed = true;
          result = inl (wrapped "could not connect to packet endpoint" e);
        }
        | inr pc ↦ record { conn = a.conn; closed = a.closed; result = inr pc }
      ]
    ]
  ]

  dialed-Releases :
      (conn : Option (Wire w)) (closed : Bool) (x : Address × Source) (d : Fallible P)
      → Releases w net (record { conn = conn; closed = closed; result = inr x })
      → let a : Attempt w net P = elim d [
        | inl e ↦ record {
          conn = conn;
          closed = true;
          result = inl (wrapped "could not connect to packet endpoint" e);
        }
        | inr pc ↦ record { conn = conn; closed = closed; result = inr pc }
      ] in
        Releases w net a
  dialed-Releases conn closed x (inl e) h = inr refl
  dialed-Releases conn closed x (inr pc) h = h

  bound-Releases :
      (conn : Option (Wire w)) (closed : Bool) (x : Address × Source) (b : Fallible Address)
      → ((e : GoError) → b ≢ inl e)
      → Releases w net (record { conn = conn; closed = closed; result = inr x })
      → let a : Attempt w net P = elim b [
        | inl e ↦ record { conn = conn; closed = closed; result = inl e }
        | inr bind_addr ↦ elim (dial_packet (addr_to_string net bind_addr)) [
          | inl e ↦ record {
            conn = conn;
            closed = true;
            result = inl (wrapped "could not connect to packet endpoint" e);
          }
          | inr pc ↦ record { conn = conn; closed = closed; result = inr pc }
        ]
      ] in
        Releases w net a
  bound-Releases conn closed x (inl e) ok h = absurd (ok e refl)
  bound-Releases conn closed x (inr b) ok h =
      dialed-Releases conn closed x (dial_packet (addr_to_string net b)) h

  then_dial-Releases :
      (conn : Option (Wire w)) (closed : Bool) (r : Fallible (Address × Source))
      → ((a : Address) (e : GoError) → bind_address net remote a ≢ inl e)
      → Releases w net (record { conn = conn; closed = closed; result = r })
      → Releases w net (then_dial (record { conn = conn; closed = closed; result = r }))
  then_dial-Releases conn closed (inl e) ok h = h
  then_dial-Releases conn closed (inr x) ok h =
      bound-Releases conn closed x (bind_address net remote x.0) (ok x.0) h

  -- As long as the address of the proxy can be read where it is needed, ListenPacket leaves no
  -- connection open with an error.
  pub listen_packet-Releases :
      (cred : Option Credentials) (dial : Fallible (Wire w × Source))
      → ((a : Address) (e : GoError) → bind_address net remote a ≢ inl e)
      → Releases w net (listen_packet w net cred dial remote dial_packet)
  unfolding listen_packet
  listen_packet-Releases cred dial ok =
      let a = connect_and_request w net cred dial cmd_udp_associate any_addr in
      then_dial-Releases a.conn a.closed a.result ok
        (connect_and_request-Releases w net cred dial cmd_udp_associate any_addr)

  -- ListenPacket fails with `e` and leaves the connection to the proxy open.
  abbrev pub Leaks : GoError → Attempt w net P → Type 0
  Leaks e a = ((c : Wire w) × (a.conn ≡ some c)) × (a.closed ≡ false) × (a.result ≡ inl e)

  released-Leaks :
      (conn : Option (Wire w)) (closed : Bool) (d e : GoError)
      → (conn ≡ none) ⊎ (closed ≡ true)
      → ¬ Leaks e (record { conn = conn; closed = closed; result = inl d })
  released-Leaks conn closed d e (inl z) ((c, some_conn), is_open, r) = absurd (cc (some_conn, z))
  released-Leaks conn closed d e (inr z) (h, is_open, r) = absurd (cc (is_open, z))

  dialed-Leaks :
      (conn : Option (Wire w)) (closed : Bool) (e : GoError) (d : Fallible P)
      → let a : Attempt w net P = elim d [
        | inl e ↦ record {
          conn = conn;
          closed = true;
          result = inl (wrapped "could not connect to packet endpoint" e);
        }
        | inr pc ↦ record { conn = conn; closed = closed; result = inr pc }
      ] in
        ¬ Leaks e a
  dialed-Leaks conn closed e (inl x) (h, is_open, r) = absurd (cc is_open)
  dialed-Leaks conn closed e (inr x) (h, is_open, r) = absurd (cc r)

  bound-Leaks :
      (conn : Option (Wire w)) (closed : Bool) (x : Address × Source) (e : GoError)
      (b : Fallible Address)
      → Releases w net (record { conn = conn; closed = closed; result = inr x })
      → let a : Attempt w net P = elim b [
        | inl e ↦ record { conn = conn; closed = closed; result = inl e }
        | inr bind_addr ↦ elim (dial_packet (addr_to_string net bind_addr)) [
          | inl e ↦ record {
            conn = conn;
            closed = true;
            result = inl (wrapped "could not connect to packet endpoint" e);
          }
          | inr pc ↦ record { conn = conn; closed = closed; result = inr pc }
        ]
      ] in
        Leaks e a ↔ (b ≡ inl e)
  bound-Leaks conn closed x e (inl d) (some_conn, is_open) = (
    λ l. let same : d ≡ e = cc l.2 in ap inl same,
    λ p. let same : d ≡ e = cc p in (some_conn, is_open, ap inl same),
  )
  bound-Leaks conn closed x e (inr b) h = (
    λ l. absurd (dialed-Leaks conn closed e (dial_packet (addr_to_string net b)) l),
    λ p. absurd (cc p),
  )

  then_dial-Leaks :
      (conn : Option (Wire w)) (closed : Bool) (r : Fallible (Address × Source)) (e : GoError)
      → Releases w net (record { conn = conn; closed = closed; result = r })
      → Leaks e (then_dial (record { conn = conn; closed = closed; result = r }))
        ↔ ((x : Address × Source) × (r ≡ inr x) × (bind_address net remote x.0 ≡ inl e))
  then_dial-Leaks conn closed (inl d) e h =
      (λ l. absurd (released-Leaks conn closed d e h l), λ (x, p, q). absurd (cc p))
  then_dial-Leaks conn closed (inr y) e h =
      let (to, from) = bound-Leaks conn closed y e (bind_address net remote y.0) h in
      (
        λ l. (y, refl, to l),
        λ (x, p, q).
            let same : y ≡ x = cc p in from (ap (λ z. bind_address net remote z.0) same ∙ q),
      )

  -- ListenPacket returns an error and leaves the connection to the proxy open just when the request
  -- succeeded and the replacement of an unspecified bound address by that of the proxy fails, and the
  -- error is that of the replacement.
  pub listen_packet-Leaks :
      (cred : Option Credentials) (dial : Fallible (Wire w × Source)) (e : GoError)
      → Leaks e (listen_packet w net cred dial remote dial_packet) ↔ (
          (x : Address × Source) × ((connect_and_request w net cred dial cmd_udp_associate
              any_addr).result
            ≡ inr x)
          × (bind_address net remote x.0 ≡ inl e))
  unfolding listen_packet
  listen_packet-Leaks cred dial e =
      let a = connect_and_request w net cred dial cmd_udp_associate any_addr in
      then_dial-Leaks a.conn a.closed a.result e
        (connect_and_request-Releases w net cred dial cmd_udp_associate any_addr)
