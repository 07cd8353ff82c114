-- ===== src/Swarm/Config/Flags.antt =====
-- swarm/config.go against swarm/types.go: role names and flags.
use gole.Base.{
  ℕ, ◌%◌, ◌<◌, ◌≡◌, refl, ◌∙◌, sym, ap, subst, ◌↔◌, ◌⊎◌, inl, inr, some, arith, Bytes, Bool-cases,
  codes, bytes_eq, bytes_beq, bytes_beq_iff,
}
use gole.Base.Result.{ok, Result-cases}
use gole.Swarm.Types.Address.{
  role_client, role_agent, role_relay, role_of, has_flag, make_role_flags, flag_relay_eligible,
  flag_priority, role_name,
}
use gole.Swarm.Types.Roles.{role_flags_round_trip}
use gole.Swarm.Config.{EndpointConfig, parse_role, config_flags, build_role_flags}

-- One of the three roles
abbrev pub IsRole : ℕ → Type 0
IsRole role = (role ≡ role_client) ⊎ ((role ≡ role_agent) ⊎ (role ≡ role_relay))

parse_role_sound :
    (name : Bytes) (role : ℕ) → parse_role name ≡ ok role → (name ≡ role_name role) × IsRole role
unfolding parse_role role_name
parse_role_sound name role h = elim (Bool-cases (bytes_beq name (codes "client"))) [
  | inl b ↦
      let r : role_client ≡ role = ground (arith, b, h) in
      subst (λ z. (name ≡ role_name z) × IsRole z) r ((bytes_beq_iff _ _).0 b, inl refl)
  | inr b ↦ elim (Bool-cases (bytes_beq name (codes "agent"))) [
    | inl d ↦
        let r : role_agent ≡ role = ground (arith, b, d, h) in
        subst (λ z. (name ≡ role_name z) × IsRole z) r ((bytes_beq_iff _ _).0 d, inr (inl refl))
    | inr d ↦ elim (Bool-cases (bytes_beq name (codes "relay"))) [
      | inl f ↦
          let r : role_relay ≡ role = ground (arith, b, d, f, h) in
          subst (λ z. (name ≡ role_name z) × IsRole z) r ((bytes_beq_iff _ _).0 f, inr (inr refl))
      | inr f ↦ absurd (ground (arith, b, d, f, h))
    ]
  ]
]

parse_role-role_name : (role : ℕ) → IsRole role → parse_role (role_name role) ≡ ok role
unfolding parse_role role_name bytes_beq
parse_role-role_name role (inl e) = subst (λ z. parse_role (role_name z) ≡ ok z) (sym e) refl
parse_role-role_name role (inr (inl e)) = subst (λ z. parse_role (role_name z) ≡ ok z) (sym e) refl
parse_role-role_name role (inr (inr e)) = subst (λ z. parse_role (role_name z) ≡ ok z) (sym e) refl

-- ParseRole reads back exactly the names that RoleName writes for the three roles.
pub parse_role-ok_iff :
    (name : Bytes) (role : ℕ)
    → (parse_role name ≡ ok role) ↔ ((name ≡ role_name role) × IsRole role)
parse_role-ok_iff name role = (
  parse_role_sound name role,
  λ p. subst (λ z. parse_role z ≡ ok role) (sym p.0) (parse_role-role_name role p.1),
)

config_flags_lem :
    (cfg : EndpointConfig)
    → (config_flags (some cfg) < 256)
      × (has_flag (config_flags (some cfg)) flag_relay_eligible ≡ cfg.relay_eligible)
      × (has_flag (config_flags (some cfg)) flag_priority ≡ cfg.priority)
unfolding config_flags has_flag
config_flags_lem cfg = elim (Bool-cases cfg.relay_eligible) [
  | inl e ↦ elim (Bool-cases cfg.priority) [
    | inl p ↦ rw (e, p) (omega arith, refl, refl)
    | inr p ↦ rw (e, p) (omega arith, refl, refl)
  ]
  | inr e ↦ elim (Bool-cases cfg.priority) [
    | inl p ↦ rw (e, p) (omega arith, refl, refl)
    | inr p ↦ rw (e, p) (omega arith, refl, refl)
  ]
]

role_of_role : (role : ℕ) → IsRole role → (role < 256) × (role % 4 ≡ role)
role_of_role role (inl e) = (omega (arith, e), omega (arith, e))
role_of_role role (inr (inl e)) = (omega (arith, e), omega (arith, e))
role_of_role role (inr (inr e)) = (omega (arith, e), omega (arith, e))

-- The byte that BuildRoleFlags makes for a configuration reads back as the named role and the
-- configuration's two settings.
pub build_role_flags_sound :
    (name : Bytes) (cfg : EndpointConfig) (flags : ℕ)
    → build_role_flags name (some cfg) ≡ ok flags
    → (name ≡ role_name (role_of flags))
      × (has_flag flags flag_relay_eligible ≡ cfg.relay_eligible)
      × (has_flag flags flag_priority ≡ cfg.priority)
unfolding build_role_flags
build_role_flags_sound name cfg flags h = elim (Result-cases (parse_role name)) [
  | inl (x, q) ↦ absurd (ground (arith, q, h))
  | inr (role, q) ↦
      let made : make_role_flags role (config_flags (some cfg)) ≡ flags = ground (arith, q, h) in
      let (named, is_role) = parse_role_sound name role q in
      let (small, same) = role_of_role role is_role in
      let (fits, eligible, priority) = config_flags_lem cfg in
      let (r, e, p) = role_flags_round_trip role (config_flags (some cfg)) small fits in
      subst
        (λ f.
          (name ≡ role_name (role_of f))
          × (has_flag f flag_relay_eligible ≡ cfg.relay_eligible)
          × (has_flag f flag_priority ≡ cfg.priority))
        made (named ∙ ap role_name (sym (r ∙ same)), e ∙ eligible, p ∙ priority)
]
