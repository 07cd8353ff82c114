-- ===== src/S5/Proxy.antt =====
-- s5/s5.go: netCopy, pipeWhenClose up to the relaying, the list Conns, and HandleConnection. The
-- connections of Conns are numbers; that several handlers change the list without a lock is not
-- modelled. Dialing is a parameter, as are the failures of writes and what Read returns.
use gole.Base.{
  ℕ, zero, suc, ◌+◌, ◌-◌, ◌/◌, ◌%◌, Bool, false, Option, none, some, List, [], ◌∷◌, ◌++◌, Bytes,
  length, take, drop, if◌then◌else◌, ◌==◌, nat_eq, bytes_eq, codes,
}
use gole.Base.Result.{Result, ok, err}
use gole.S5.Stream.{IoError, eof, unexpected_eof, broken, byte_at, slice}
use gole.S5.Address.{v4_prefix, to4, to16}
use gole.S5.Server.{Refusal, write_failed, hand_shake, parse_target, confirmation}

-- What a call of Read returns: bytes, or bytes with an error.
pub data Read : Type 0 where
  got : Bytes → Read
  ended : IoError → Bytes → Read

unfoldable pub last_write : IoError → Bytes → List Bytes
last_write eof (x ∷ b) = (x ∷ b) ∷ []
last_write eof [] = []
last_write unexpected_eof b = []
last_write broken b = []

-- netCopy: the calls of output.Write, by what input.Read returns
unfoldable pub net_copy : List Read → List Bytes
net_copy [] = []
net_copy (got [] ∷ rs) = net_copy rs
net_copy (got (x ∷ b) ∷ rs) = (x ∷ b) ∷ net_copy rs
net_copy (ended e b ∷ rs) = last_write e b

-- net.TCPAddr
pub record TcpAddr : Type 0 where
  pub ip : Bytes
  pub port : ℕ
  pub zone : Bytes

-- A nil slice for no address
unfoldable pub or_nil : Option Bytes → Bytes
or_nil none = []
or_nil (some ip) = ip

-- IP.Equal
unfoldable pub ip_equal : Bytes → Bytes → Bool
ip_equal a b =
    if length a == length b
    then a == b
    else if length a == 4
    then (if length b == 16 then b == (v4_prefix ++ a) else false)
    else if length a == 16
    then (if length b == 4 then a == (v4_prefix ++ b) else false)
    else false

-- The zone that pipeWhenClose goes by
unfoldable pub zone_of : TcpAddr → Bytes
zone_of a =
    if a.zone == []
    then (if ip_equal a.ip (or_nil (to4 a.ip)) then codes "ip4" else codes "ip6")
    else a.zone

-- rep[0 : pindex+2]
unfoldable pub reply : TcpAddr → Bytes
reply a =
    let ip6 = zone_of a == codes "ip6" in
    let ip = if ip6 then or_nil (to16 a.ip) else or_nil (to4 a.ip) in
    5 ∷ 0 ∷ 0 ∷ (if ip6 then 4 else 1) ∷ (ip ++ (a.port / 256 % 256 ∷ a.port % 256 ∷ []))

-- How a client is served: turned away, without a connection to its target, or with what it has
-- sent so far handed on.
pub data Served : Type 0 where
  refused : Refusal → Served
  dial_failed : Bytes → Served
  relaying : Bytes → List Bytes → Served

unfoldable pub dialed : Bytes → List Bytes → Option TcpAddr → Served × Bytes
dialed target rest none = (dial_failed target, [])
dialed target rest (some local) = (relaying target rest, reply local)

-- pipeWhenClose, up to the relaying, and what it writes to the client
unfoldable pub pipe_when_close : (Bytes → Option TcpAddr) → Bytes → List Bytes → Served × Bytes
pipe_when_close dial target rest = dialed target rest (dial target)

-- The part of HandleConnection after parseTarget
unfoldable pub serve_request :
    (Bytes → Option TcpAddr) → Result Refusal (Bytes × List Bytes) → Served × Bytes
serve_request dial (err r) = (refused r, [])
serve_request dial (ok (target, rest)) = pipe_when_close dial target rest

-- The part of HandleConnection after the handshake's reads, the write of its answer included
unfoldable pub after_greeting :
    Bool → (Bytes → Option TcpAddr) → IoError → Result Refusal (List Bytes) → Served × Bytes
after_greeting can_write dial ending (err r) = (refused r, [])
after_greeting can_write dial ending (ok rest) =
    let (served, written) = serve_request dial (parse_target ending rest) in
    if can_write then (served, confirmation ++ written) else (refused write_failed, [])

-- HandleConnection, by whether the answer to the handshake can be written, and what it writes
unfoldable pub handle_connection :
    Bool → (Bytes → Option TcpAddr) → IoError → List Bytes → Served × Bytes
handle_connection can_write dial ending chunks =
    after_greeting can_write dial ending (hand_shake ending chunks)

-- Conns = append(Conns, conn)
unfoldable pub enter : List ℕ → ℕ → List ℕ
enter conns conn = conns ++ (conn ∷ [])

-- append(Conns[:i], Conns[i+1:]...) on the array under a slice of n elements: the elements after i
-- move down by one, and the last place keeps what it held.
unfoldable pub shift_down : ℕ → ℕ → List ℕ → List ℕ
shift_down i n array = take i array ++ (slice (i + 1) n array ++ drop (n - 1) array)

-- The deferred loop, which goes over the array in the length that Conns had before
unfoldable pub leave_loop : ℕ → ℕ → ℕ → List ℕ → ℕ → List ℕ × ℕ
leave_loop zero i conn array n = (array, n)
leave_loop (suc rounds) i conn array n =
    let hit = byte_at i array == conn in
    leave_loop rounds (i + 1) conn (if hit then shift_down i n array else array)
      (if hit then n - 1 else n)

unfoldable pub leave : List ℕ → ℕ → List ℕ
leave conns conn =
    let (array, n) = leave_loop (length conns) 0 conn conns (length conns) in take n array
