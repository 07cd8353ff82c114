-- ===== src/Swarm/Discovery/Priority.antt =====
-- swarm/discovery.go: PrioritizeRelay.
use gole.Base.{
  ◌≡◌, refl, ◌≢◌, ◌↔◌, ◌⊎◌, inl, inr, ◌∙◌, sym, ap, Option, none, some, List, [], ◌∷◌, arith, Bytes,
  Bool-cases, bytes_eq, bytes_beq, bytes_beq_iff,
}
use gole.Base.Int.{pos}
use gole.Swarm.Types.Address.{EndpointAddr, addr_key}
use gole.Swarm.Types.Transport.{RelayInfo}
use gole.Swarm.Discovery.Sorting.{In}
use gole.Swarm.Discovery.Select.{split_target, prioritize_relay}

-- The entries that are not the target's
pub others-In :
    (key : Bytes) (xs : List RelayInfo) (found : Option RelayInfo) (x : RelayInfo)
    → In x (split_target key xs found).1 ↔ (In x xs × (addr_key x.addr ≢ key))
unfolding split_target
others-In key [] found x = ((λ h. elim h [ ]), (λ h. h.0))
others-In key (y ∷ ys) found x = elim (Bool-cases (bytes_beq (addr_key y.addr) key)) [
  | inl b ↦ rw b (
      let (there, back) = others-In key ys (some y) x in
      (
        λ h. let (i, n) = there h in (inr i, n),
        λ h. elim h.0 [
          | inl e ↦
              absurd (h.1 (ap (λ z. addr_key z.addr) e ∙ (bytes_beq_iff (addr_key y.addr) key).0 b))
          | inr i ↦ back (i, h.1)
        ],
      ))
  | inr b ↦ rw b (
      let (there, back) = others-In key ys found x in
      let apart : addr_key y.addr ≢ key =
        λ e. absurd (ground (arith, b, (bytes_beq_iff (addr_key y.addr) key).1 e)) in
      (
        λ h. elim h [
          | inl e ↦ (inl e, λ w. apart (ap (λ z. addr_key z.addr) (sym e) ∙ w))
          | inr i ↦ let (j, n) = there i in (inr j, n)
        ],
        λ h. elim h.0 [ inl e ↦ inl e | inr i ↦ inr (back (i, h.1)) ],
      ))
]

-- What the loop has found of the target
data Found (key : Bytes) (xs : List RelayInfo) (before after : Option RelayInfo) : Type 0 where
  absent :
      after ≡ before
      → ((x : RelayInfo) → In x xs → addr_key x.addr ≢ key)
      → Found key xs before after
  present :
      (r : RelayInfo) → after ≡ some r → In r xs → addr_key r.addr ≡ key → Found key xs before after

split_target-Found :
    (key : Bytes) (xs : List RelayInfo) (found : Option RelayInfo)
    → Found key xs found (split_target key xs found).0
unfolding split_target
split_target-Found key [] found = absent refl (λ x i. elim i [ ])
split_target-Found key (y ∷ ys) found = elim (Bool-cases (bytes_beq (addr_key y.addr) key)) [
  | inl b ↦ rw b (
      let own = (bytes_beq_iff (addr_key y.addr) key).0 b in
      elim (split_target-Found key ys (some y)) [
        | absent e n ↦ present y e (inl refl) own
        | present r e i k ↦ present r e (inr i) k
      ])
  | inr b ↦ rw b (elim (split_target-Found key ys found) [
    | absent e n ↦ absent e (λ x i. elim i [
      | inl s ↦ λ w. absurd (
          ground (
            arith,
            b,
            (bytes_beq_iff (addr_key y.addr) key).1 (ap (λ z. addr_key z.addr) (sym s) ∙ w),
          ))
      | inr j ↦ n x j
    ])
    | present r e i k ↦ present r e (inr i) k
  ])
]

-- The list with the target first
pub record IsPrioritized (relays : List RelayInfo) (target : EndpointAddr) (out : List RelayInfo)
    : Type 0 where
  pub first : RelayInfo
  pub others : List RelayInfo
  pub shape : out ≡ first ∷ others
  pub own : addr_key first.addr ≡ addr_key target
  pub known :
      In first relays
      ⊎ ((first ≡ record { addr = target; latency = pos 0 })
          × ((x : RelayInfo) → In x relays → addr_key x.addr ≢ addr_key target))
  pub rest : (x : RelayInfo) → In x others ↔ (In x relays × (addr_key x.addr ≢ addr_key target))

-- PrioritizeRelay puts an entry of the target's address first: one of the list's if it has one, and
-- a new one of latency 0 otherwise. Behind it stand exactly the list's entries of other addresses.
pub prioritize_relay-IsPrioritized :
    (relays : List RelayInfo) (target : EndpointAddr)
    → IsPrioritized relays target (prioritize_relay relays target)
unfolding prioritize_relay
prioritize_relay-IsPrioritized relays target =
    elim (split_target-Found (addr_key target) relays none) [
      | absent e n ↦
          rw (e, prioritize_relay)
            record {
              first = record { addr = target; latency = pos 0 };
              others = (split_target (addr_key target) relays none).1;
              shape = refl;
              own = refl;
              known = inr (refl, n);
              rest = others-In (addr_key target) relays none;
            }
      | present r e i k ↦
          rw (e, prioritize_relay)
            record {
              first = r;
              others = (split_target (addr_key target) relays none).1;
              shape = refl;
              own = k;
              known = inl i;
              rest = others-In (addr_key target) relays none;
            }
    ]
