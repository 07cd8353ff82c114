-- ===== src/S5/Stream.antt =====
-- s5/s5.go: what a client's connection still delivers, as the pieces in which it arrives, and io's
-- ReadAtLeast and ReadFull on it.
use gole.Base.{
  ℕ, zero, suc, ◌-◌, List, [], ◌∷◌, ◌++◌, Bytes, length, take, drop, ltb, leb, if◌then◌else◌,
}
use gole.Base.Result.{Result, ok, err}

-- How a connection ends, and what ReadAtLeast makes of an end in the middle of the bytes it needs.
pub data IoError : Type 0 where
  eof : IoError
  unexpected_eof : IoError
  broken : IoError

unfoldable pub short_read : Bytes → IoError → IoError
short_read (x ∷ got) eof = unexpected_eof
short_read (x ∷ got) unexpected_eof = unexpected_eof
short_read (x ∷ got) broken = broken
short_read [] ending = ending

-- The loop of io.ReadAtLeast: a Read takes what has arrived, or as much of it as there is room for.
unfoldable pub read_more :
    ℕ → ℕ → IoError → Bytes → List Bytes → Result IoError (Bytes × List Bytes)
read_more room min ending got [] =
    if leb min (length got) then ok (got, []) else err (short_read got ending)
read_more room min ending got (c ∷ cs) =
    let rest = read_more (room - length c) min ending (got ++ c) cs in
    if leb min (length got)
    then ok (got, c ∷ cs)
    else if ltb room (length c)
    then ok (got ++ take room c, drop room c ∷ cs)
    else rest

-- io.ReadAtLeast(conn, buf, min) with a buffer of `room` bytes, room ≥ min
unfoldable pub read_at_least : ℕ → ℕ → IoError → List Bytes → Result IoError (Bytes × List Bytes)
read_at_least room min ending chunks = read_more room min ending [] chunks

-- io.ReadFull(conn, buf) with a buffer of n bytes
unfoldable pub read_full : ℕ → IoError → List Bytes → Result IoError (Bytes × List Bytes)
read_full n ending chunks = read_at_least n n ending chunks

-- buf[i] of a zeroed buffer that begins with these bytes
unfoldable pub byte_at : ℕ → Bytes → ℕ
byte_at i [] = 0
byte_at zero (x ∷ xs) = x
byte_at (suc i) (x ∷ xs) = byte_at i xs

-- buf[low:high]
abbrev pub slice : ℕ → ℕ → Bytes → Bytes
slice low high buf = take (high - low) (drop low buf)
