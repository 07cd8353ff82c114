-- ===== src/S5/Address.antt =====
-- What s5/s5.go takes from the package net: addresses as text.
use gole.Base.{
  ℕ, suc, ◌+◌, ◌*◌, ◌/◌, ◌%◌, Bool, false, ◌||◌, Option, none, some, List, [], ◌∷◌, ◌++◌, Bytes,
  length, take, drop, ltb, leb, if◌then◌else◌, ◌==◌, nat_eq, bytes_eq,
}
use gole.Base.Decimal.{itoa}

-- The first bytes of an IPv4 address in its 16-byte form
abbrev pub v4_prefix : Bytes
v4_prefix = 0 ∷ 0 ∷ 0 ∷ 0 ∷ 0 ∷ 0 ∷ 0 ∷ 0 ∷ 0 ∷ 0 ∷ 255 ∷ 255 ∷ []

-- IP.To4
unfoldable pub to4 : Bytes → Option Bytes
to4 ip =
    if length ip == 4
    then some ip
    else if length ip == 16
    then (if take 12 ip == v4_prefix then some (drop 12 ip) else none)
    else none

-- IP.To16
unfoldable pub to16 : Bytes → Option Bytes
to16 ip =
    if length ip == 4 then some (v4_prefix ++ ip) else if length ip == 16 then some ip else none

unfoldable pub dotted : Bytes → Bytes
dotted [] = []
dotted (a ∷ []) = itoa a
dotted (a ∷ b ∷ rest) = itoa a ++ (46 ∷ dotted (b ∷ rest))

hex_digit : ℕ → ℕ
hex_digit d = if ltb d 10 then 48 + d else 87 + d

-- A group of 16 bits in hexadecimal, without leading zeros
hex : ℕ → Bytes
hex g =
    if leb 4096 g
    then hex_digit (g / 4096)
      ∷ hex_digit (g / 256 % 16)
      ∷ hex_digit (g / 16 % 16)
      ∷ hex_digit (g % 16)
      ∷ []
    else if leb 256 g
    then hex_digit (g / 256) ∷ hex_digit (g / 16 % 16) ∷ hex_digit (g % 16) ∷ []
    else if leb 16 g
    then hex_digit (g / 16) ∷ hex_digit (g % 16) ∷ []
    else hex_digit g ∷ []

groups : Bytes → List ℕ
groups [] = []
groups (a ∷ []) = []
groups (a ∷ b ∷ rest) = (a * 256 + b) ∷ groups rest

zeros : List ℕ → ℕ
zeros [] = 0
zeros (g ∷ gs) = if g == 0 then suc (zeros gs) else 0

-- The place and the length of the first longest run of at least two zero groups
longest : ℕ → List ℕ → ℕ × ℕ → ℕ × ℕ
longest i [] best = best
longest i (g ∷ gs) (start, size) =
    let run = zeros (g ∷ gs) in
    let better = longest (i + 1) gs (i, run) in
    let same = longest (i + 1) gs (start, size) in
    if leb run 1 then same else if ltb size run then better else same

join_groups : List ℕ → Bytes
join_groups [] = []
join_groups (g ∷ []) = hex g
join_groups (g ∷ h ∷ gs) = hex g ++ (58 ∷ join_groups (h ∷ gs))

-- The longest run of zeros is written as two colons.
colons : List ℕ → Bytes
colons gs =
    let (start, size) = longest 0 gs (0, 0) in
    if size == 0
    then join_groups gs
    else join_groups (take start gs) ++ (58 ∷ 58 ∷ join_groups (drop (start + size) gs))

-- IP.String on an address of 4 or of 16 bytes
unfoldable pub ip_string : Bytes → Bytes
unfolding colons groups longest zeros join_groups hex hex_digit
ip_string ip = elim (to4 ip) [ none ↦ colons (groups ip) | some v4 ↦ dotted v4 ]

-- net.JoinHostPort
has_colon : Bytes → Bool
has_colon [] = false
has_colon (c ∷ cs) = c == 58 || has_colon cs

unfoldable pub join_host_port : Bytes → Bytes → Bytes
unfolding has_colon
join_host_port host port =
    if has_colon host then 91 ∷ (host ++ (93 ∷ 58 ∷ port)) else host ++ (58 ∷ port)
