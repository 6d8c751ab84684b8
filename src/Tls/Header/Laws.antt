-- ===== src/Tls/Header/Laws.antt =====
-- Facts about the header: what Validate answers, and what the setter keeps.
use bfx_outline_sdk.Prelude.{
  ◌==◌, not, ◌&&◌, ◌||◌, ltb, get_or, get_or, not, ◌≡◌, ◌≤◌, ◌<◌, refl, ◌⊎◌, inl, inr, String, Bool,
  true, false, none, some, if◌then◌else◌, arith,
}
use bfx_outline_sdk.Io.{Bytes, Fault, message}
use bfx_outline_sdk.Tls.Header.{
  max_record_payload_len, version_tls13, version_tls12, version_tls11, version_tls10, uint16_at,
  record_type_handshake, payload_len, validate,
}

abbrev pub IsAnswer : Fault → Type 0
IsAnswer e = (e ≡ none) ⊎ ((m : String) × (e ≡ some (message m)))

else-IsAnswer :
    (b : Bool) (m : String) (e : Fault) → IsAnswer e → IsAnswer (if b then some (message m) else e)
else-IsAnswer true m e h = inr (m, refl)
else-IsAnswer false m e h = h

pub validate-IsAnswer : (h : Bytes) → IsAnswer (validate h)
unfolding validate
validate-IsAnswer h =
    let wrong_type = not (get_or h 0 0 == record_type_handshake) in
    let version = uint16_at h 1 in
    let wrong_version =
      not (version == version_tls10)
      && not (version == version_tls11)
      && not (version == version_tls12)
      && not (version == version_tls13) in
    let wrong_length = payload_len h == 0 || ltb max_record_payload_len (payload_len h) in
    else-IsAnswer wrong_type "record type must be handshake" _ (
      else-IsAnswer wrong_version "invalid TLS version" _
        (else-IsAnswer wrong_length "record length out of range" none (inl refl)))

-- A header that is accepted announces a payload of 1 to 2^14 bytes.
pub validate_range : (h : Bytes) → validate h ≡ none → (0 < payload_len h) × (payload_len h ≤ 16384)
unfolding validate
validate_range h v = ground arith
