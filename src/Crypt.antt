-- ===== src/Crypt.antt =====
-- crypt.go: the XOR stream and packet connections. xorsimd.Bytes is an argument: of two slices it
-- gives the bytes that it writes, as many as it returns. The key is what pbkdf2 has derived.
pub mod Stream
pub mod Packets
mod Examples
use gole.Base.{
  ℕ, zero, suc, ◌+◌, ◌%◌, List, [], ◌∷◌, ◌++◌, Bytes, length, drop, ◌==◌, nat_eq, if◌then◌else◌,
}

-- EConnXor, with its two places in the key
pub record EConnXor : Type 0 where
  pub key : Bytes
  pub key_ri : ℕ
  pub key_wi : ℕ

-- NewEConn, past the derivation of the key
unfoldable pub new_econn : Bytes → EConnXor
new_econn key = record { key = key; key_ri = 0; key_wi = 0 }

module _ (xor_slices : Bytes → Bytes → Bytes) where
  -- The loop of Read and Write over what is left of the buffer, with `rounds` rounds left: the
  -- buffer after it, and the place in the key.
  unfoldable pub xor_loop : ℕ → Bytes → ℕ → Bytes → Bytes × ℕ
  xor_loop zero key pos b = (b, pos)
  xor_loop (suc rounds) key pos [] = ([], pos)
  xor_loop (suc rounds) key pos (x ∷ b) =
      let done = xor_slices (x ∷ b) (drop pos key) in
      let ct = length done in
      let (rest, next) = xor_loop rounds key ((pos + ct) % length key) (drop ct (x ∷ b)) in
      if ct == 0 then (x ∷ b, pos) else (done ++ rest, next)

  -- EConnXor.Write: what goes to the connection, of which each round covers at least one byte
  unfoldable pub econn_write : Bytes → EConnXor → EConnXor × Bytes
  econn_write b e =
      let (sent, next) = xor_loop (length b) e.key e.key_wi b in (record e { key_wi = next }, sent)

  -- EConnXor.Read, with the bytes that the connection gives
  unfoldable pub econn_read : Bytes → EConnXor → EConnXor × Bytes
  econn_read b e =
      let (got, next) = xor_loop (length b) e.key e.key_ri b in (record e { key_ri = next }, got)

  -- EPacketConnXor.WriteTo and ReadFrom: one call, which covers what the key's length covers
  unfoldable pub packet_xor : Bytes → Bytes → Bytes
  packet_xor key b = let done = xor_slices b key in done ++ drop (length done) b

  unfoldable pub write_each : List Bytes → EConnXor → Bytes
  write_each [] e = []
  write_each (b ∷ bs) e = let (e', sent) = econn_write b e in sent ++ write_each bs e'

  unfoldable pub read_each : List Bytes → EConnXor → Bytes
  read_each [] e = []
  read_each (b ∷ bs) e = let (e', got) = econn_read b e in got ++ read_each bs e'
