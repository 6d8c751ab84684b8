-- ===== src/Disorder.antt =====
-- x/disorder/writer.go. The socket options are not code of this file: what HopLimit and SetHopLimit
-- return, and what Write of the connection returns, is given for each call.
pub mod Runs
use bfx_outline_sdk.Prelude.{
  ℕ, ◌≡◌, Bool, true, false, Option, none, some, List, [], ◌∷◌, ◌++◌, if◌then◌else◌, take,
}
use bfx_outline_sdk.Prelude.Int.{ℤ, pos, negsuc, ltb_ℤ, ◌-ℤ◌, is_zero}
use bfx_outline_sdk.Io.{Bytes, GoError, Fault, wrapped, is_some}

-- disorderWriter, with the hop limit of the socket and what the connection accepted, each piece with the
-- hop limit that it was sent with.
pub record DisorderWriter : Type 0 where
  pub writes_to_disorder : ℤ
  pub hop_limit : ℕ
  pub sent : List (ℕ × Bytes)

-- What the calls of one Write return: HopLimit, SetHopLimit to 1, Write, and SetHopLimit back.
pub record Answers : Type 0 where
  pub get_err : Fault
  pub set_err : Fault
  pub n : ℕ
  pub write_err : Fault
  pub restore_err : Fault

abbrev pub new_writer : ℕ → ℤ → DisorderWriter
new_writer hop_limit run_at_packet_n = record {
  writes_to_disorder = run_at_packet_n;
  hop_limit = hop_limit;
  sent = [];
}

-- Write of the connection, and the count.
unfoldable pub write_conn : Answers → Bytes → DisorderWriter → DisorderWriter
write_conn a p w = record w {
  sent = w.sent ++ (w.hop_limit, take a.n p) ∷ [];
  writes_to_disorder =
      if ltb_ℤ (negsuc 0) w.writes_to_disorder
      then w.writes_to_disorder -ℤ pos 1
      else w.writes_to_disorder;
}

-- The deferred function. The error that it makes is assigned to the variable of the if block, so it is
-- not the result of Write.
abbrev pub restore : Fault → ℕ → DisorderWriter → DisorderWriter
restore none default_hop_limit w = record w { hop_limit = default_hop_limit }
restore (some e) default_hop_limit w = w

abbrev pub write_disordered :
    Fault → Fault → Answers → Bytes → DisorderWriter → DisorderWriter × ℕ × Fault
write_disordered (some e) set a p w = (w, 0, some (wrapped "failed to get the hop limit" e))
write_disordered none (some e) a p w = (w, 0, some (wrapped "failed to set the hop limit to 1" e))
write_disordered none none a p w = (
  restore a.restore_err w.hop_limit (write_conn a p (record w { hop_limit = 1 })),
  a.n,
  a.write_err,
)

unfoldable pub write : Answers → Bytes → DisorderWriter → DisorderWriter × ℕ × Fault
write a p w =
    if is_zero w.writes_to_disorder
    then write_disordered a.get_err a.set_err a p w
    else (write_conn a p w, a.n, a.write_err)
