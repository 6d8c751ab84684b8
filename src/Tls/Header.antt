-- ===== src/Tls/Header.antt =====
-- transport/tlsfrag/tls.go: the five bytes in front of a TLS record. A header is a slice that
-- aliases the start of a buffer, so its methods work on the whole buffer.
pub mod Laws
use bfx_outline_sdk.Prelude.{
  ℕ, ◌+◌, ◌*◌, ◌/◌, ◌%◌, ◌^◌, Option, none, some, not, ◌&&◌, ◌||◌, ltb, ◌==◌, if◌then◌else◌, length,
  get_or, set,
}
use bfx_outline_sdk.Io.{Bytes, Fault, message}

abbrev pub record_header_len : ℕ
record_header_len = 5

abbrev pub max_record_payload_len : ℕ
max_record_payload_len = 2 ^ 14

abbrev pub record_type_handshake : ℕ
record_type_handshake = 22

abbrev pub version_tls10 : ℕ
version_tls10 = 0x0301

abbrev pub version_tls11 : ℕ
version_tls11 = 0x0302

abbrev pub version_tls12 : ℕ
version_tls12 = 0x0303

abbrev pub version_tls13 : ℕ
version_tls13 = 0x0304

-- binary.BigEndian.Uint16(p[i:]) and PutUint16(p[i:], v).
abbrev pub uint16_at : Bytes → ℕ → ℕ
uint16_at p i = get_or p i 0 * 256 + get_or p (i + 1) 0

abbrev pub put_uint16 : Bytes → ℕ → ℕ → Bytes
put_uint16 p i v = set (set p i (v / 256 % 256)) (i + 1) (v % 256)

-- newTLSHandshakeRecordHeader: the slice itself, if it is long enough.
unfoldable pub new_header : Bytes → Option Bytes × Fault
new_header p =
    if ltb (length p) record_header_len
    then (none, some (message "HandshakeRecordHeader requires at least 5 bytes"))
    else (some p, none)

unfoldable pub payload_len : Bytes → ℕ
payload_len h = uint16_at h 3

unfoldable pub validate : Bytes → Fault
validate h =
    let version = uint16_at h 1 in
    let len = payload_len h in
    if not (get_or h 0 0 == record_type_handshake)
    then some (message "record type must be handshake")
    else if not (version == version_tls10)
        && not (version == version_tls11)
        && not (version == version_tls12)
        && not (version == version_tls13)
    then some (message "invalid TLS version")
    else if len == 0 || ltb max_record_payload_len len
    then some (message "record length out of range")
    else none

unfoldable pub set_payload_len : Bytes → ℕ → Bytes × Fault
set_payload_len h len =
    if len == 0 || ltb max_record_payload_len len
    then (h, some (message "record length out of range"))
    else (put_uint16 h 3 len, none)
