-- ===== src/Io/Source.antt =====
-- io.Reader as the list of the answers that it is going to give: each is some bytes with the error
-- that comes with the last of them. A Read into a shorter buffer takes part of an answer. When the
-- list is at its end every Read returns io.EOF.
pub mod Reads
pub mod Full
use bfx_outline_sdk.Prelude.{
  ℕ, zero, suc, ◌-◌, none, some, List, [], ◌∷◌, ◌++◌, ltb, if◌then◌else◌, length, take, drop,
}
use bfx_outline_sdk.Io.{Bytes, Fault, eof, unexpected_eof}

abbrev pub Source : Type 0
Source = List (Bytes × Fault)

-- All the bytes that are still to come.
abbrev pub unread : Source → Bytes
unread [] = []
unread ((c, e) ∷ r) = c ++ unread r

-- One Read into a buffer of `n` bytes: the bytes, the error, and what is left.
unfoldable pub read : ℕ → Source → Bytes × Fault × Source
read n [] = ([], some eof, [])
read n ((c, e) ∷ r) = if ltb n (length c) then (take n c, none, (drop n c, e) ∷ r) else (c, e, r)

-- bytes.NewReader(p).
abbrev pub bytes_reader : Bytes → Source
bytes_reader [] = []
bytes_reader (b ∷ p) = (b ∷ p, none) ∷ []

-- io.ReadFull answers EOF only if it read nothing.
abbrev pub short_read : ℕ → Fault → Fault
short_read zero e = e
short_read (suc n) (some eof) = some unexpected_eof
short_read (suc n) e = e

-- The loop of io.ReadFull: `need` bytes are missing, `got` are read.
unfoldable pub read_full_loop : ℕ → Bytes → Source → Bytes × Fault × Source
read_full_loop zero got src = (got, none, src)
read_full_loop (suc need) got [] = (got, short_read (length got) (some eof), [])
read_full_loop (suc need) got ((c, e) ∷ r) =
    let more : Bytes × Fault × Source = elim e [
      | none ↦ read_full_loop (suc need - length c) (got ++ c) r
      | some e' ↦ (got ++ c, short_read (length (got ++ c)) (some e'), r)
    ] in
    if ltb (suc need) (length c)
    then (got ++ take (suc need) c, none, (drop (suc need) c, e) ∷ r)
    else if ltb (length c) (suc need)
    then more
    else (got ++ c, none, r)

unfoldable pub read_full : ℕ → Source → Bytes × Fault × Source
read_full n src = read_full_loop n [] src
