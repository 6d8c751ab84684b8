-- ===== src/Tls/LenWriter.antt =====
-- transport/tlsfrag/record_len_writer.go: recordLenFragWriter. The callback `frag` is a parameter. Of
-- the two header slices, `hdr` is w.hdr; w.tlsHdr aliases it until the first record is written, and is
-- not used later, so the model keeps only whether it is set.
pub mod Reliable
pub mod Tail
pub mod First
pub mod Emits
pub mod Invariant
pub mod Step
pub mod Start
pub mod Run
pub mod Agree
use bfx_outline_sdk.Prelude.{
  ℕ, ◌+◌, ◌-◌, ◌%◌, ◌^◌, Option, none, some, Bool, true, false, [], ◌∷◌, ◌++◌, not, ◌&&◌, ◌||◌, ltb,
  leb, ◌==◌, if◌then◌else◌, length, take, drop, min,
}
use bfx_outline_sdk.Prelude.Int.{ℤ, pos, pos_part, leb_ℤ}
use bfx_outline_sdk.Io.{Bytes, GoError, Fault, Writer, Wire, send, message, is_some}
use bfx_outline_sdk.Tls.Header.{
  record_header_len, new_header, validate, payload_len, set_payload_len,
}

pub record LenWriter (w : Writer) : Type 0 where
  pub base : Wire w
  pub done : Bool
  pub hdr : Bytes
  pub has_tls_hdr : Bool
  pub r1_size : ℕ
  pub r1_written : ℕ
  pub r2_size : ℕ

-- The limit of writeBothN for the second header.
abbrev pub mtu : ℕ
mtu = 2 ^ 14

module _ (w : Writer) where
  -- writeN: the bytes written, and the error.
  unfoldable pub write_n : Wire w → Bytes → ℕ → Wire w × ℕ × Fault
  write_n c p limit = if limit == 0 then (c, 0, none) else send w c (take limit p)

  -- writeBoth: one Write of both slices, which a buffer makes only if it has something to write.
  unfoldable pub write_both : Wire w → Bytes → Bytes → Wire w × ℕ × ℕ × Fault
  write_both c p1 p2 =
      let (c', n, err) = if length (p1 ++ p2) == 0 then (c, 0, none) else send w c (p1 ++ p2) in
      if leb n (length p1) then (c', n, 0, err) else (c', length p1, n - length p1, err)

  unfoldable pub write_both_n : Wire w → Bytes → Bytes → ℕ → Wire w × ℕ × ℕ × Fault
  write_both_n c p1 p2 limit =
      let (c', n, err) = send w c (take limit p1) in
      if leb limit (length p1)
      then (c', n, 0, err)
      else write_both c p1 (take (limit - length p1) p2)

  unfoldable pub new_len_writer : Wire w → LenWriter w
  new_len_writer c = record {
    base = c;
    done = false;
    hdr = [];
    has_tls_hdr = false;
    r1_size = 0;
    r1_written = 0;
    r2_size = 0;
  }

  -- The last Write of Write.
  abbrev pub write_base : LenWriter w → Bytes → ℕ → LenWriter w × ℕ × Fault
  write_base s p n = let (c, m, err) = send w s.base p in (record s { base = c }, n + m, err)

  -- Write behind the first record: what is left of a header, then the slice. `n` bytes are already
  -- counted.
  unfoldable pub write_tail : LenWriter w → Bytes → ℕ → LenWriter w × ℕ × Fault
  write_tail s p n =
      let (c, hn, m, err) = write_both_n s.base s.hdr p mtu in
      let s' : LenWriter w = record s { base = c; hdr = drop hn s.hdr } in
      let p' = drop m p in
      let headed : LenWriter w × ℕ × Fault =
        if is_some err || length p' == 0 then (s', n + m, err) else write_base s' p' (n + m) in
      if length s.hdr == 0 then write_base s p n else headed

  -- What of the first record can be written: the state, the count of slice bytes, and the error.
  unfoldable pub write_record : LenWriter w → Bytes → LenWriter w × ℕ × Fault
  write_record s p =
      let (c, hn, m, err) = write_both_n s.base (drop s.r1_written s.hdr) p s.r1_size in
      let (c', m', err') = write_n s.base p (s.r1_size - s.r1_written) in
      if ltb s.r1_written record_header_len
      then (record s { base = c; r1_written = s.r1_written + (hn + m) }, m, err)
      else (record s { base = c'; r1_written = s.r1_written + m' }, m', err')

  -- The first record is written, and the second header is next.
  unfoldable pub second_header : LenWriter w → LenWriter w
  second_header s = record s {
    hdr = (set_payload_len s.hdr ((s.r2_size - record_header_len) % 2 ^ 16)).0;
    done = true;
  }

  unfoldable pub write_first : LenWriter w → Bytes → ℕ → LenWriter w × ℕ × Fault
  write_first s p n =
      let (s1, m, err) = write_record s p in
      let next : LenWriter w × ℕ × Fault =
        if is_some err
        then (second_header s1, n + m, err)
        else write_tail (second_header s1) (drop m p) (n + m) in
      let first : LenWriter w × ℕ × Fault =
        if ltb s1.r1_written s1.r1_size then (s1, n + m, err) else next in
      if not s.done && ltb s.r1_written s.r1_size then first else write_tail s p n

  module _ (frag : ℕ → ℤ) where
    unfoldable pub update_split_record_lens : LenWriter w → LenWriter w × Fault
    update_split_record_lens s =
        let total = payload_len s.hdr in
        let split = frag total in
        let k = pos_part split in
        if not s.has_tls_hdr
        then (s, some (message "invalid TLS header"))
        else if leb_ℤ split (pos 0) || leb_ℤ (pos total) split
        then (s, some (message "invalid split position"))
        else (
          record s { r1_size = k + record_header_len; r2_size = total - k + record_header_len },
          none,
        )

    -- The header is complete. It is at least five bytes long, so newTLSHandshakeRecordHeader does not
    -- fail.
    unfoldable pub start_record : LenWriter w → LenWriter w
    start_record s =
        let s1 : LenWriter w = record s { has_tls_hdr = true } in
        let (s2, err) = update_split_record_lens s1 in
        let header = (set_payload_len s2.hdr ((s2.r1_size - record_header_len) % 2 ^ 16)).0 in
        if is_some (validate s1.hdr)
        then record s1 { done = true }
        else if is_some err
        then record s2 { done = true }
        else record s2 { hdr = header }

    unfoldable pub write_header : LenWriter w → Bytes → LenWriter w × ℕ × Fault
    write_header s p =
        let n = min (record_header_len - length s.hdr) (length p) in
        let s1 : LenWriter w = record s { hdr = s.hdr ++ take n p } in
        let rest = write_first (start_record s1) (drop n p) n in
        if ltb (length s1.hdr) record_header_len then (s1, n, none) else rest

    unfoldable pub write : LenWriter w → Bytes → LenWriter w × ℕ × Fault
    write s p =
        if s.done
        then write_tail s p 0
        else if s.has_tls_hdr
        then write_first s p 0
        else write_header s p
