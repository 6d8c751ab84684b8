-- ===== src/Socks5/Request.antt =====
-- transport/socks5/stream_dialer.go: SetCredentials, request, connectAndRequest and DialStream. The
-- connection to the proxy is a writer with its log and the answers that it will give; whether it was
-- closed is a Boolean.
pub mod Reply
pub mod Server
use bfx_outline_sdk.Prelude.{
  ◌%◌, not, Bool, length, if◌then◌else◌, ◌==◌, leb, Option, ℕ, zero, suc, [], none, some, inl, inr,
  ◌∷◌, ◌≡◌, ◌++◌, ◌⊎◌, true, false,
}
use bfx_outline_sdk.Io.{
  Bytes, GoError, Fault, Fallible, ◌>>=◌, ◌>>◌, guard, wrap, message, wrapped, reply_code, Writer,
  Wire, send,
}
use bfx_outline_sdk.Io.Source.{Source, read_full}
use bfx_outline_sdk.Socks5.Address.{Address, Net, append_socks5_address, checked, read_addr}

pub record Credentials : Type 0 where
  pub username : Bytes
  pub password : Bytes

unfoldable pub set_credentials : Bytes → Bytes → Fallible Credentials
set_credentials username password =
    guard (leb (length username) 255) (message "username exceeds 255 bytes")
    >> guard (not (length username == 0)) (message "username must be at least 1 byte")
    >> guard (leb (length password) 255) (message "password exceeds 255 bytes")
    >> guard (not (length password == 0)) (message "password must be at least 1 byte")
    >> inr (record { username = username; password = password })

abbrev pub cmd_connect : ℕ
cmd_connect = 1

abbrev pub cmd_udp_associate : ℕ
cmd_udp_associate = 3

abbrev pub auth_method_no_auth : ℕ
auth_method_no_auth = 0

abbrev pub auth_method_user_pass : ℕ
auth_method_user_pass = 2

-- The method selection, and the authentication if there are credentials.
unfoldable pub method_request : Option Credentials → Bytes
method_request none = 5 ∷ 1 ∷ auth_method_no_auth ∷ []
method_request (some cred) =
    (5 ∷ 1 ∷ auth_method_user_pass ∷ [])
    ++ (1 ∷ (length cred.username % 256) ∷ cred.username)
    ++ (length cred.password % 256) ∷ cred.password

-- All that request writes.
unfoldable pub request_bytes : Net → Option Credentials → ℕ → Bytes → Fallible Bytes
request_bytes net cred cmd dst_addr =
    wrap "failed to create SOCKS5 address"
      (append_socks5_address net (method_request cred ++ 5 ∷ cmd ∷ 0 ∷ []) dst_addr)

-- The byte at an index of what was read.
abbrev pub byte_at : Bytes → ℕ → ℕ
byte_at [] i = 0
byte_at (b ∷ _) zero = b
byte_at (_ ∷ r) (suc i) = byte_at r i

unfoldable pub read_method : Source → Fallible (ℕ × Source)
read_method src =
    wrap "failed to read method server response" (checked (read_full 2 src))
    >>= λ (r : Bytes × Source).
        guard (byte_at r.0 0 == 5) (message "invalid protocol version. Expected 5")
        >> inr (byte_at r.0 1, r.1)

unfoldable pub read_auth : ℕ → Source → Fallible Source
read_auth method src =
    if method == auth_method_no_auth
    then inr src
    else if method == auth_method_user_pass
    then (wrap "failed to read authentication version and status" (checked (read_full 2 src))
        >>= λ (r : Bytes × Source).
            guard (byte_at r.0 0 == 1) (message "invalid authentication version. Expected 1")
            >> guard (byte_at r.0 1 == 0) (message "authentication failed")
            >> inr r.1)
    else inl (message "unsupported SOCKS authentication method. Expected 2")

-- The reply to the command: a code other than zero is the error itself.
unfoldable pub read_reply : Source → Fallible (Address × Source)
read_reply src =
    wrap "failed to read connect server response" (checked (read_full 3 src))
    >>= λ (r : Bytes × Source).
        guard (byte_at r.0 0 == 5) (message "invalid protocol version. Expected 5")
        >> guard (byte_at r.0 1 == 0) (reply_code (byte_at r.0 1))
        >> wrap "failed to read bound address" (read_addr r.1)

unfoldable pub read_response : Source → Fallible (Address × Source)
read_response src =
    read_method src >>= λ (m : ℕ × Source). read_auth m.0 m.1 >>= λ (src' : Source). read_reply src'

module _ (w : Writer) (net : Net) where
  -- What is left unread after an error is left out: the caller closes the connection.
  unfoldable pub request :
      Option Credentials → Wire w → Source → ℕ → Bytes → Wire w × Fallible (Address × Source)
  request cred conn src cmd dst_addr = elim (request_bytes net cred cmd dst_addr) [
    | inl e ↦ (conn, inl e)
    | inr b ↦
        let (conn', n, err) = send w conn b in
        (
          conn',
          elim err [
            | some e ↦ inl (wrapped "failed to write combined SOCKS5 request" e)
            | none ↦ read_response src
          ],
        )
  ]

  -- The connection that was opened, if one was, and whether it is closed; and the results.
  pub record Attempt (A : Type 0) : Type 0 where
    pub conn : Option (Wire w)
    pub closed : Bool
    pub result : Fallible A

  -- `dial` is what ConnectStream answers.
  unfoldable pub connect_and_request :
      Option Credentials → Fallible (Wire w × Source) → ℕ → Bytes → Attempt (Address × Source)
  connect_and_request cred (inl e) cmd dst_addr = record {
    conn = none;
    closed = false;
    result = inl (wrapped "could not connect to SOCKS5 proxy" e);
  }
  connect_and_request cred (inr (conn, src)) cmd dst_addr =
      let (conn', r) = request cred conn src cmd dst_addr in
      elim r [
        | inl e ↦ record { conn = some conn'; closed = true; result = inl e }
        | inr a ↦ record { conn = some conn'; closed = false; result = inr a }
      ]

  unfoldable pub dial_stream :
      Option Credentials → Fallible (Wire w × Source) → Bytes → Attempt Source
  dial_stream cred dial dst_addr =
      let a = connect_and_request cred dial cmd_connect dst_addr in
      record {
        conn = a.conn;
        closed = a.closed;
        result = elim a.result [ inl e ↦ inl e | inr x ↦ inr x.1 ];
      }
