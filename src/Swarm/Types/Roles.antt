-- ===== src/Swarm/Types/Roles.antt =====
-- The packing of a RoleFlags byte, and the keys of addresses.
use Prim.Native.Nat.{bit_and, bit_or}
use gole.Base.{
  ℕ, zero, suc, ◌+◌, ◌*◌, ◌↔◌, ap, not, ◌∙◌, ◌%◌, ◌/◌, ◌<◌, ◌≡◌, refl, Bool, true, ◌&&◌, arith,
  nat_beq, nat_beq_iff,
}
use gole.Swarm.Types.Address.{
  role_of, flag_relay_eligible, flag_priority, EndpointAddr, has_flag, make_role_flags, addr_key,
}
use gole.Base.Decimal.{itoa-digits, itoa-injective, dot_unique}

holds_up_to : (ℕ → Bool) → ℕ → Bool
holds_up_to test zero = true
holds_up_to test (suc top) = holds_up_to test top && test top

holds_up_to_at :
    (test : ℕ → Bool) (top : ℕ) (k : ℕ) → k < top → holds_up_to test top ≡ true → test k ≡ true
unfolding holds_up_to
holds_up_to_at test zero k below all = absurd (omega arith)
holds_up_to_at test (suc top) k below all = ground (arith, holds_up_to_at test top k)

low_table : holds_up_to (λ x. nat_beq (bit_and x 3) (x % 4)) 256 ≡ true
unfolding holds_up_to
low_table = refl

low_bits : (x : ℕ) → x < 256 → bit_and x 3 ≡ x % 4
low_bits x h =
    (nat_beq_iff _ _).0 (holds_up_to_at (λ x. nat_beq (bit_and x 3) (x % 4)) 256 x h low_table)

-- On a byte the role is the remainder by 4.
pub role_of-mod : (x : ℕ) → x < 256 → role_of x ≡ x % 4
unfolding role_of
role_of-mod x h = low_bits x h

abbrev packed : ℕ → ℕ
packed x = bit_or (bit_and (x / 256) 3) (bit_and (x % 256) 0xfc)

packed_table : holds_up_to (λ x. nat_beq (packed x) (x / 256 % 4 + (x % 256 / 4) * 4)) 1024 ≡ true
unfolding holds_up_to
packed_table = refl

packed_lem : (x : ℕ) → x < 1024 → packed x ≡ x / 256 % 4 + (x % 256 / 4) * 4
packed_lem x h = (nat_beq_iff _ _).0 (
    holds_up_to_at (λ x. nat_beq (packed x) (x / 256 % 4 + (x % 256 / 4) * 4)) 1024 x h
      packed_table)

-- The role in the lower two bits, the flags in the upper six.
make_role_flags-eq :
    (role flags : ℕ)
    → role < 256
    → flags < 256
    → make_role_flags role flags ≡ role % 4 + (flags / 4) * 4
unfolding make_role_flags
make_role_flags-eq role flags h k =
    let x : ℕ = role % 4 * 256 + flags in
    let hi : x / 256 ≡ role % 4 = omega arith in
    let lo : x % 256 ≡ flags = omega arith in
    let same : bit_and (role % 4) 3 ≡ bit_and role 3 =
      low_bits (role % 4) (omega arith) ∙ ground (arith, low_bits role h) in
    let p = packed_lem x (omega arith) in rw (← same) (rw (hi, lo) at p ∙ omega arith)

flag_table :
    holds_up_to
      (λ x. nat_beq (bit_and x 4) (x / 4 % 2 * 4) && nat_beq (bit_and x 8) (x / 8 % 2 * 8))
      256
    ≡ true
unfolding holds_up_to
flag_table = refl

flag_bits : (x : ℕ) → x < 256 → (bit_and x 4 ≡ x / 4 % 2 * 4) × (bit_and x 8 ≡ x / 8 % 2 * 8)
flag_bits x h = ground (
  arith,
  holds_up_to_at
      (λ x. nat_beq (bit_and x 4) (x / 4 % 2 * 4) && nat_beq (bit_and x 8) (x / 8 % 2 * 8)) 256 x h
      flag_table,
)

-- Packing a role and a flag byte, each below 256, and reading them back: the role is the role
-- argument's lower two bits whatever the flags, and the relay-eligible and the priority flag are
-- set exactly when they are set in the flag byte.
pub role_flags_round_trip :
    (role flags : ℕ)
    → role < 256
    → flags < 256
    → (role_of (make_role_flags role flags) ≡ role % 4)
      × (has_flag (make_role_flags role flags) flag_relay_eligible
          ≡ has_flag flags flag_relay_eligible)
      × (has_flag (make_role_flags role flags) flag_priority ≡ has_flag flags flag_priority)
unfolding has_flag
role_flags_round_trip role flags h k =
    let m : ℕ = role % 4 + (flags / 4) * 4 in
    let b : m < 256 = omega arith in
    rw (make_role_flags-eq role flags h k) (
      role_of-mod m b ∙ omega arith,
      rw ((flag_bits m b).0, (flag_bits flags k).0)
          (ap (λ (t : ℕ). not (nat_beq (t * 4) 0)) (omega arith)),
      rw ((flag_bits m b).1, (flag_bits flags k).1)
          (ap (λ (t : ℕ). not (nat_beq (t * 8) 0)) (omega arith)),
    )

addr_key-injective :
    (a b : EndpointAddr)
    → addr_key a ≡ addr_key b
    → (a.domain ≡ b.domain) × (a.group ≡ b.group) × (a.endpoint ≡ b.endpoint)
unfolding addr_key
addr_key-injective a b e =
    let (d, r) = dot_unique _ _ _ _ (itoa-digits a.domain) (itoa-digits b.domain) e in
    let (g, i) = dot_unique _ _ _ _ (itoa-digits a.group) (itoa-digits b.group) r in
    (
      itoa-injective a.domain b.domain d,
      itoa-injective a.group b.group g,
      itoa-injective a.endpoint b.endpoint i,
    )

-- Two addresses have the same AddrKey exactly when they agree in domain, group and endpoint ID;
-- the role and the flags play no part.
pub addr_key-eq_iff :
    (a b : EndpointAddr)
    → (addr_key a ≡ addr_key b)
      ↔ ((a.domain ≡ b.domain) × (a.group ≡ b.group) × (a.endpoint ≡ b.endpoint))
unfolding addr_key
addr_key-eq_iff a b = (addr_key-injective a b, λ h. rw (h.0, h.1, h.2))
