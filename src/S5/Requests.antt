-- ===== src/S5/Requests.antt =====
-- s5/s5.go against RFC 1928: what handShake and parseTarget make of a greeting and of a request to
-- connect, in whatever pieces they arrive.
use gole.Base.{
  ℕ, ◌+◌, ◌-◌, ◌*◌, ◌/◌, ◌%◌, ◌≤◌, ◌<◌, ◌≡◌, refl, ◌∙◌, sym, ap, Bool, true, false, inl, inr, List,
  [], ◌∷◌, ◌++◌, arith, Bytes, length, length-append, concat, take, take-append, ltb, if◌then◌else◌,
  Bool-cases, nat_eq,
}
use gole.Base.Result.{Result, ok, err, ◌>>=◌}
use gole.Base.Decimal.{itoa}
use gole.S5.Stream.{IoError, read_more, read_at_least, byte_at}
use gole.S5.Address.{ip_string, join_host_port}
use gole.S5.Server.{
  Refusal, slice_panic, auth_extra_data, request_extra_data, fill, hand_shake, request_length,
  target_host, port_of, with_port, parse_target,
}
use gole.S5.Reading.{read_more-Cut, fill_rest, byte_at-append, byte_at-after}

-- The message of a client that offers these methods
abbrev pub greeting : Bytes → Bytes
greeting methods = 5 ∷ length methods ∷ methods

-- A host as a client names it
pub data Target : Type 0 where
  ip4 : Bytes → Target
  ip6 : Bytes → Target
  name : Bytes → Target

abbrev pub IsTarget : Target → Type 0
IsTarget (ip4 a) = length a ≡ 4
IsTarget (ip6 a) = length a ≡ 16
IsTarget (name a) = length a < 256

abbrev pub address_bytes : Target → Bytes
address_bytes (ip4 a) = 1 ∷ a
address_bytes (ip6 a) = 4 ∷ a
address_bytes (name a) = 3 ∷ length a ∷ a

-- The message that asks for a connection to the target
abbrev pub request : ℕ → Target → ℕ → Bytes
request reserved t port = 5 ∷ 1 ∷ reserved ∷ (address_bytes t ++ (port / 256 ∷ port % 256 ∷ []))

abbrev pub host_text : Target → Bytes
host_text (ip4 a) = ip_string a
host_text (ip6 a) = ip_string a
host_text (name a) = a

-- Whether the sum of 5 and the name's length is still a byte
abbrev pub fits : Target → Bool
fits (ip4 a) = true
fits (ip6 a) = true
fits (name a) = ltb (length a) 251

known :
    (i : ℕ) (a b : Bytes) {msg : Bytes} → a ++ b ≡ msg → i < length a → byte_at i a ≡ byte_at i msg
known i a b whole h = sym (byte_at-append i a b h) ∙ ap (byte_at i) whole

hand_shake_run :
    (e : IoError) (chunks mid left : List Bytes) (n : ℕ) (buf msg : Bytes)
    → read_more 258 2 e [] chunks ≡ ok (buf, mid)
    → byte_at 0 buf ≡ 5
    → byte_at 1 buf ≡ n
    → fill auth_extra_data (n + 2) buf e mid ≡ ok (msg, left)
    → hand_shake e chunks ≡ ok left
unfolding hand_shake read_at_least
hand_shake_run e chunks mid left n buf msg q v l f = rw (q, v, l, f) refl

-- A greeting is accepted in whatever pieces it arrives, provided that it ends with one of them;
-- what the client sends after it is still unread, except that the pieces left may begin with
-- empty ones.
pub hand_shake-greeting :
    (e : IoError) (methods : Bytes) (cs rest : List Bytes)
    → length methods < 256
    → concat cs ≡ greeting methods
    → (left : List Bytes) × (concat left ≡ []) × (hand_shake e (cs ++ rest) ≡ ok (left ++ rest))
unfolding byte_at
hand_shake-greeting e methods cs rest small h =
    let (cut, q) =
      read_more-Cut 258 2 e [] cs rest (omega (arith, ap length h))
        (omega (arith, small, ap length h)) in
    let whole : cut.taken ++ concat cut.left ≡ greeting methods = cut.whole ∙ h in
    let v : byte_at 0 cut.taken ≡ 5 =
      known 0 cut.taken (concat cut.left) whole (omega (arith, cut.enough)) in
    let l : byte_at 1 cut.taken ≡ length methods =
      known 1 cut.taken (concat cut.left) whole (omega (arith, cut.enough)) in
    let (left, gone, f) =
      fill_rest auth_extra_data (length methods + 2) e cut.taken cut.left rest
        (ap length whole ∙ omega arith) in
    (
      left,
      gone,
      hand_shake_run e (cs ++ rest) (cut.left ++ rest) (left ++ rest) (length methods) cut.taken
          (cut.taken ++ concat cut.left) q v l f,
    )

pub same_length :
    (a b : Bytes)
    → byte_at 3 a ≡ byte_at 3 b
    → byte_at 4 a ≡ byte_at 4 b
    → request_length a ≡ request_length b
unfolding request_length
same_length a b h k = rw (h, k) refl

pub parse_target_run :
    (e : IoError) (chunks mid left : List Bytes) (n : ℕ) (buf msg : Bytes)
    → read_more 263 5 e [] chunks ≡ ok (buf, mid)
    → byte_at 0 buf ≡ 5
    → byte_at 1 buf ≡ 1
    → request_length buf ≡ ok n
    → fill request_extra_data n buf e mid ≡ ok (msg, left)
    → parse_target e chunks ≡ (target_host msg >>= with_port (port_of n msg) left)
unfolding parse_target read_at_least
parse_target_run e chunks mid left n buf msg q v c l f = rw (q, v, c, l, f) refl

-- A message whose fields are in order is read whole.
parse_target_read :
    (e : IoError) (msg : Bytes) (cs rest : List Bytes)
    → concat cs ≡ msg
    → 5 ≤ length msg
    → length msg ≤ 263
    → byte_at 0 msg ≡ 5
    → byte_at 1 msg ≡ 1
    → request_length msg ≡ ok (length msg)
    → (left : List Bytes) × (concat left ≡ [])
      × (parse_target e (cs ++ rest)
          ≡ (target_host msg >>= with_port (port_of (length msg) msg) (left ++ rest)))
parse_target_read e msg cs rest h low high version command len =
    let (cut, q) =
      read_more-Cut 263 5 e [] cs rest (omega (arith, ap length h, low))
        (omega (arith, high, ap length h)) in
    let whole : cut.taken ++ concat cut.left ≡ msg = cut.whole ∙ h in
    let field : (i : ℕ) → i < 5 → byte_at i cut.taken ≡ byte_at i msg =
      λ i k. known i cut.taken (concat cut.left) whole (omega (arith, k, cut.enough)) in
    let v : byte_at 0 cut.taken ≡ 5 = field 0 (omega arith) ∙ version in
    let c : byte_at 1 cut.taken ≡ 1 = field 1 (omega arith) ∙ command in
    let l : request_length cut.taken ≡ ok (length msg) =
      same_length cut.taken msg (field 3 (omega arith)) (field 4 (omega arith)) ∙ len in
    let (left, gone, f) =
      fill_rest request_extra_data (length msg) e cut.taken cut.left rest (ap length whole) in
    let f2 : fill request_extra_data (length msg) cut.taken e (cut.left ++ rest)
        ≡ ok (msg, left ++ rest) =
      f ∙ ap (λ z. ok (z, left ++ rest)) whole in
    (
      left,
      gone,
      parse_target_run e (cs ++ rest) (cut.left ++ rest) (left ++ rest) (length msg) cut.taken msg q
          v c l f2,
    )

port_of-append :
    (before : Bytes) (high low : ℕ)
    → port_of (length (before ++ (high ∷ low ∷ []))) (before ++ (high ∷ low ∷ []))
      ≡ high * 256 + low
unfolding port_of byte_at
port_of-append before high low =
    let bytes : Bytes = high ∷ low ∷ [] in
    let len : length (before ++ bytes) ≡ length before + 2 = length-append before bytes in
    let first : byte_at (length (before ++ bytes) - 2) (before ++ bytes) ≡ high =
      ap (λ z. byte_at z (before ++ bytes)) {x = length (before ++ bytes) - 2}
        {y = length before + 0} (omega (arith, len))
      ∙ byte_at-after 0 before bytes in
    let second : byte_at (length (before ++ bytes) - 1) (before ++ bytes) ≡ low =
      ap (λ z. byte_at z (before ++ bytes)) {x = length (before ++ bytes) - 1}
        {y = length before + 1} (omega (arith, len))
      ∙ byte_at-after 1 before bytes in
    ap (λ z. z * 256 + byte_at (length (before ++ bytes) - 1) (before ++ bytes)) first
    ∙ ap (λ z. high * 256 + z) second

port_of-request :
    (reserved : ℕ) (t : Target) (port : ℕ)
    → port < 65536
    → port_of (length (request reserved t port)) (request reserved t port) ≡ port
port_of-request reserved t port small =
    port_of-append (5 ∷ 1 ∷ reserved ∷ address_bytes t) (port / 256) (port % 256) ∙ omega arith

-- What parseTarget makes of a request's host: the panic where the sum wraps
abbrev pub host_of : Target → Result Refusal Bytes
host_of t = if fits t then ok (host_text t) else err slice_panic

target_host-request :
    (reserved : ℕ) (t : Target) (port : ℕ)
    → IsTarget t
    → target_host (request reserved t port) ≡ host_of t
unfolding target_host byte_at
target_host-request reserved (ip4 a) port h =
    let bytes : Bytes = port / 256 ∷ port % 256 ∷ [] in
    ap (λ z. ok (ip_string z)) (ap (λ n. take n (a ++ bytes)) (sym h) ∙ take-append a bytes)
target_host-request reserved (ip6 a) port h =
    let bytes : Bytes = port / 256 ∷ port % 256 ∷ [] in
    ap (λ z. ok (ip_string z)) (ap (λ n. take n (a ++ bytes)) (sym h) ∙ take-append a bytes)
target_host-request reserved (name a) port h = elim (Bool-cases (ltb (length a) 251)) [
  | inl b ↦
      let bytes : Bytes = port / 256 ∷ port % 256 ∷ [] in
      let sum : (5 + length a) % 256 ≡ 5 + length a = ground (arith, b) in
      let above : ltb (5 + length a) 5 ≡ false = ground arith in
      let same : take (5 + length a - 5) (a ++ bytes) ≡ a =
        ap (λ n. take n (a ++ bytes)) {x = 5 + length a - 5} {y = length a} (omega arith)
        ∙ take-append a bytes in
      rw (b, sum, above, same) refl
  | inr b ↦
      let wraps : ltb ((5 + length a) % 256) 5 ≡ true = ground (arith, b, h) in rw (b, wraps) refl
]

fields_of-request :
    (reserved : ℕ) (t : Target) (port : ℕ)
    → IsTarget t
    → (request_length (request reserved t port) ≡ ok (length (request reserved t port)))
      × (5 ≤ length (request reserved t port))
      × (length (request reserved t port) ≤ 263)
unfolding request_length byte_at
fields_of-request reserved (ip4 a) port h =
    let n : length (a ++ (port / 256 ∷ port % 256 ∷ [])) ≡ length a + 2 =
      length-append a (port / 256 ∷ port % 256 ∷ []) in
    (ap ok (omega (arith, n, h)), omega (arith, n, h), omega (arith, n, h))
fields_of-request reserved (ip6 a) port h =
    let n : length (a ++ (port / 256 ∷ port % 256 ∷ [])) ≡ length a + 2 =
      length-append a (port / 256 ∷ port % 256 ∷ []) in
    (ap ok (omega (arith, n, h)), omega (arith, n, h), omega (arith, n, h))
fields_of-request reserved (name a) port h =
    let n : length (a ++ (port / 256 ∷ port % 256 ∷ [])) ≡ length a + 2 =
      length-append a (port / 256 ∷ port % 256 ∷ []) in
    (ap ok (omega (arith, n, h)), omega (arith, n, h), omega (arith, n, h))

first : (reserved : ℕ) (t : Target) (port : ℕ) → byte_at 0 (request reserved t port) ≡ 5
unfolding byte_at
first reserved t port = refl

second : (reserved : ℕ) (t : Target) (port : ℕ) → byte_at 1 (request reserved t port) ≡ 1
unfolding byte_at
second reserved t port = refl

pub outcome :
    (reserved : ℕ) (t : Target) (port : ℕ) (left : List Bytes)
    → IsTarget t
    → port < 65536
    → (target_host (request reserved t port)
        >>= with_port (port_of (length (request reserved t port)) (request reserved t port)) left)
      ≡ (if fits t then ok (join_host_port (host_text t) (itoa port), left) else err slice_panic)
outcome reserved t port left h small = elim (Bool-cases (fits t)) [
  | inl b ↦
      rw (target_host-request reserved t port h, port_of-request reserved t port small, b) refl
  | inr b ↦ rw (target_host-request reserved t port h, b) refl
]

-- A request to connect to an address, or to a name of at most 250 bytes, gives the text of the
-- host and the port as it names them, in whatever pieces it arrives, provided that it ends with
-- one of them; what follows is still unread, except that the pieces left may begin with empty
-- ones. On a name of 251 to 255 bytes, which the protocol allows, parseTarget panics.
pub parse_target-request :
    (e : IoError) (reserved : ℕ) (t : Target) (port : ℕ) (cs rest : List Bytes)
    → IsTarget t
    → port < 65536
    → concat cs ≡ request reserved t port
    → (left : List Bytes) × (concat left ≡ [])
      × (parse_target e (cs ++ rest) ≡ (
          if fits t
          then ok (join_host_port (host_text t) (itoa port), left ++ rest)
          else err slice_panic))
parse_target-request e reserved t port cs rest h small whole =
    let (len, low, high) = fields_of-request reserved t port h in
    let (left, gone, q) =
      parse_target_read e (request reserved t port) cs rest whole low high (first reserved t port)
        (second reserved t port) len in
    (left, gone, q ∙ outcome reserved t port (left ++ rest) h small)
