-- ===== src/Dns/Query/Frames.antt =====
-- The frames of DNS over a stream: what queryStream sends and what it takes from the answer.
use bfx_outline_sdk.Prelude.{
  ap₂, Bool-cases, sym, suc, ◌≤◌, ◌-◌, ◌+◌, ◌∙◌, arith, ap, ◌%◌, ◌^◌, ◌<◌, ◌/◌, [], none, inl, inr,
  ◌∷◌, ◌≡◌, ◌++◌, refl,
}
use bfx_outline_sdk.Io.{Bytes, Fallible, ◌>>=◌, ◌>>◌, >>=-eq-inr, wrap, wrap-inr, guard, message}
use bfx_outline_sdk.Io.Source.{Source, read_full, unread}
use bfx_outline_sdk.Io.Source.Full.{Smooth, read_full-Gets}
use bfx_outline_sdk.Socks5.Address.{checked, uint16}
use bfx_outline_sdk.Dns.Check.{Question, Message, Dnsmessage, append_request, check_response}
use bfx_outline_sdk.Dns.Query.{
  suc, drop, leb, ℕ, length, nest, passed, accept, stream_request, stream_response, err_bad_request,
  err_bad_response,
}
use bfx_outline_sdk.Dns.Query.Accepted.{nest-inr}

-- A frame of RFC 1035 4.2.2: the length in two bytes, and the message.
abbrev pub frame : Bytes → Bytes
frame m = (length m / 256) ∷ (length m % 256) ∷ m

-- The length put into the two bytes in front.
abbrev put_length : Bytes → Bytes
put_length buf = ((length buf - 2) % 2 ^ 16 / 256) ∷ ((length buf - 2) % 256) ∷ drop 2 buf

put_length-frame : (m : Bytes) → length m + 2 ≤ 65535 → put_length (0 ∷ 0 ∷ m) ≡ frame m
put_length-frame m h =
    let high : (suc (suc (length m)) - 2) % 2 ^ 16 / 256 ≡ length m / 256 = omega arith in
    let low : (suc (suc (length m)) - 2) % 256 ≡ length m % 256 = omega arith in
    ap₂ (λ a b. a ∷ b ∷ m) high low

guarded :
    (out buf : Bytes)
    → (guard (leb (length out) 65535) (message "message too large") >> inr (put_length out))
      ≡ inr buf
    → (length out ≤ 65535) × (put_length out ≡ buf)
guarded out buf h = elim (Bool-cases (leb (length out) 65535)) [
  | inl t ↦ (ground arith, cc (rw t at h))
  | inr f ↦ absurd (cc (rw f at h))
]

-- The other side reads a frame.
abbrev pub read_frame : Source → Fallible (Bytes × Source)
read_frame src =
    checked (read_full 2 src) >>= λ (l : Bytes × Source). checked (read_full (uint16 l.0) l.1)

frame-Gets :
    (m rest : Bytes) (src : Source)
    → length m < 2 ^ 16
    → Smooth src
    → unread src ≡ frame m ++ rest
    → (s1 s2 : Source) × (read_full 2 src ≡ ((length m / 256) ∷ (length m % 256) ∷ [], none, s1))
      × (read_full (length m) s1 ≡ (m, none, s2))
      × (uint16 ((length m / 256) ∷ (length m % 256) ∷ []) ≡ length m)
      × (unread s2 ≡ rest)
frame-Gets m rest src lt h e =
    let (s1, r1, left1, smooth1) =
      read_full-Gets ((length m / 256) ∷ (length m % 256) ∷ []) (m ++ rest) src h e in
    let (s2, r2, left2, smooth2) = read_full-Gets m rest s1 smooth1 left1 in
    (s1, s2, r1, r2, omega arith, left2)

read_frame-frame :
    (m rest : Bytes) (src : Source)
    → length m < 2 ^ 16
    → Smooth src
    → unread src ≡ frame m ++ rest
    → (s : Source) × (read_frame src ≡ inr (m, s)) × (unread s ≡ rest)
read_frame-frame m rest src lt h e =
    let (s1, s2, r1, r2, value, left) = frame-Gets m rest src lt h e in
    (s2, rw r1 (ap (λ n. checked (read_full n s1)) value ∙ rw r2), left)

nest-accept :
    (dm : Dnsmessage) (id : ℕ) (q : Question) (p : Bytes) (m : Message)
    → accept dm id q p ≡ inr m
    → (nest err_bad_response (wrap "response failed to unpack" (dm.unpack p)) >>= λ (msg : Message).
        nest err_bad_response (passed msg (check_response id q msg)))
      ≡ inr m
unfolding accept
nest-accept dm id q p m h = let (msg, e, h') = >>=-eq-inr (dm.unpack p) _ h in rw (e, h') refl

module _ (dm : Dnsmessage) where
  -- A framed response that is accepted is returned, however the connection cuts it up and whatever
  -- follows.
  pub stream_response-frame :
      (id : ℕ) (q : Question) (p rest : Bytes) (src : Source) (m : Message)
      → length p < 2 ^ 16
      → Smooth src
      → unread src ≡ frame p ++ rest
      → accept dm id q p ≡ inr m
      → stream_response dm id q src ≡ inr m
  unfolding stream_response
  stream_response-frame id q p rest src m lt h e ok =
      let (s1, s2, r1, r2, value, left) = frame-Gets p rest src lt h e in
      rw (r1, value, r2) (nest-accept dm id q p m ok)

  -- The builder appends to the bytes that it is given.
  abbrev pub Appends : Type 0
  Appends =
      (id : ℕ) (q : Question) (buf out : Bytes)
      → append_request dm id q buf ≡ inr out
      → (m : Bytes) × (out ≡ buf ++ m)

  -- What queryStream sends, the other side reads as one frame with the request that was built.
  pub read_frame-stream_request :
      Appends
      → (id : ℕ) (q : Question) (buf rest : Bytes) (src : Source) → stream_request dm id q ≡ inr buf
      → Smooth src
      → unread src ≡ buf ++ rest
      → (m : Bytes) × (src' : Source) × (append_request dm id q (0 ∷ 0 ∷ []) ≡ inr (0 ∷ 0 ∷ m))
        × (read_frame src ≡ inr (m, src'))
        × (unread src' ≡ rest)
  unfolding stream_request
  read_frame-stream_request appends id q buf rest src h smooth left =
      let (out, built, h1) =
        >>=-eq-inr (wrap "append request failed" (append_request dm id q (0 ∷ 0 ∷ []))) _
          (nest-inr err_bad_request _ h) in
      let (m, shape) = appends id q (0 ∷ 0 ∷ []) out (wrap-inr _ _ built) in
      let (short, put) = guarded out buf h1 in
      let fits : length m + 2 ≤ 65535 = omega (arith, ap length shape) in
      let whole : buf ≡ frame m = sym put ∙ ap put_length shape ∙ put_length-frame m fits in
      let (src', r, after) =
        read_frame-frame m rest src (omega arith) smooth (left ∙ ap (λ x. x ++ rest) whole) in
      (m, src', wrap-inr _ _ built ∙ ap inr shape, r, after)
