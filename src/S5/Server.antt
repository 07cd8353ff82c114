-- ===== src/S5/Server.antt =====
-- s5/s5.go: handShake, parseTarget, the reply of pipeWhenClose, netCopy, and the list Conns that
-- HandleConnection keeps. A conversation is the pieces that the client still sends; buf[i] past
-- what was read is 0, as in the source's zeroed buffers.
use gole.Base.{
  ℕ, ◌+◌, ◌-◌, ◌*◌, ◌%◌, List, [], ◌∷◌, ◌++◌, Bytes, length, ltb, if◌then◌else◌, ◌==◌, nat_eq,
}
use gole.Base.Result.{Result, ok, err, guard, wrap, ◌>>=◌, ◌>>◌}
use gole.Base.Decimal.{itoa}
use gole.S5.Stream.{IoError, read_at_least, read_full, byte_at, slice}
use gole.S5.Address.{ip_string, join_host_port}

-- The errors, and the panic of a slice whose bounds are out of order.
pub data Refusal : Type 0 where
  read_failed : IoError → Refusal
  write_failed : Refusal
  bad_version : Refusal
  auth_extra_data : Refusal
  bad_command : Refusal
  bad_address_type : Refusal
  request_extra_data : Refusal
  slice_panic : Refusal

-- The rest of a message of n bytes, of which a first read brought some
unfoldable pub fill :
    Refusal → ℕ → Bytes → IoError → List Bytes → Result Refusal (Bytes × List Bytes)
fill extra n buf ending chunks =
    let more = read_full (n - length buf) ending chunks >>= λ r. ok (buf ++ r.0, r.1) in
    if length buf == n
    then ok (buf, chunks)
    else if ltb (length buf) n
    then wrap read_failed more
    else err extra

-- handShake, up to its answer
unfoldable pub hand_shake : IoError → List Bytes → Result Refusal (List Bytes)
hand_shake ending chunks = wrap read_failed (read_at_least 258 2 ending chunks) >>= λ r.
    guard (byte_at 0 r.0 == 5) bad_version
    >> fill auth_extra_data (byte_at 1 r.0 + 2) r.0 ending r.1
    >>= λ m. ok (m.1)

-- The answer of handShake: version 5, no authentication
abbrev pub confirmation : Bytes
confirmation = 5 ∷ 0 ∷ []

-- reqLen
unfoldable pub request_length : Bytes → Result Refusal ℕ
request_length buf =
    if byte_at 3 buf == 1
    then ok 10
    else if byte_at 3 buf == 4
    then ok 22
    else if byte_at 3 buf == 3
    then ok (byte_at 4 buf + 7)
    else err bad_address_type

-- The host of a request; the sum of bytes in buf[idDm0 : idDm0+buf[idDmLen]] is a byte
unfoldable pub target_host : Bytes → Result Refusal Bytes
target_host buf =
    let high = (5 + byte_at 4 buf) % 256 in
    if byte_at 3 buf == 1
    then ok (ip_string (slice 4 8 buf))
    else if byte_at 3 buf == 4
    then ok (ip_string (slice 4 20 buf))
    else if byte_at 3 buf == 3
    then (if ltb high 5 then err slice_panic else ok (slice 5 high buf))
    else ok []

-- binary.BigEndian.Uint16(buf[reqLen-2 : reqLen])
unfoldable pub port_of : ℕ → Bytes → ℕ
port_of n buf = byte_at (n - 2) buf * 256 + byte_at (n - 1) buf

-- net.JoinHostPort(host, strconv.Itoa(int(port))), with what is still unread
abbrev pub with_port : ℕ → List Bytes → Bytes → Result Refusal (Bytes × List Bytes)
with_port port rest host = ok (join_host_port host (itoa port), rest)

-- parseTarget
unfoldable pub parse_target : IoError → List Bytes → Result Refusal (Bytes × List Bytes)
parse_target ending chunks = wrap read_failed (read_at_least 263 5 ending chunks) >>= λ r.
    guard (byte_at 0 r.0 == 5) bad_version
    >> guard (byte_at 1 r.0 == 1) bad_command
    >> request_length r.0
    >>= λ n. fill request_extra_data n r.0 ending r.1 >>= λ m.
        target_host m.0 >>= with_port (port_of n m.0) m.1
