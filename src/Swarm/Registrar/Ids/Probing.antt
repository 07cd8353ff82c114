-- ===== src/Swarm/Registrar/Ids/Probing.antt =====
-- swarm/registrar.go, `allocateID`: which IDs its loop reaches, and what it returns.
use gole.Base.{
  ℕ, zero, suc, ◌+◌, ◌-◌, ◌≤◌, ◌<◌, ◌≡◌, refl, ◌↔◌, Bool, true, false, none, some, arith, ltb, ◌==◌,
  nat_eq, if◌then◌else◌, inl, inr, Bool-cases,
}
use gole.Swarm.Registrar.State.{max_endpoints_per_group}
use gole.Swarm.Registrar.Ids.{candidate_at, probe}

abbrev pub InRange : ℕ → Type 0
InRange id = (1 ≤ id) × (id ≤ max_endpoints_per_group)

candidate_at-InRange : (hint i : ℕ) → InRange (candidate_at hint i)
unfolding candidate_at
candidate_at-InRange hint i = ground arith

pub probe-some :
    (taken : ℕ → Bool) (hint rounds i id : ℕ)
    → probe taken hint rounds i ≡ some id
    → (taken id ≡ false) × InRange id
unfolding probe
probe-some taken hint zero i id h = absurd (ground arith)
probe-some taken hint (suc rounds) i id h = elim (Bool-cases (taken (candidate_at hint i))) [
  | inl t ↦ probe-some taken hint rounds (i + 1) id (ground arith)
  | inr t ↦
      let same : candidate_at hint i ≡ id = ground arith in
      rw (← same) (t, candidate_at-InRange hint i)
]

probe-none :
    (taken : ℕ → Bool) (hint rounds i j : ℕ)
    → probe taken hint rounds i ≡ none
    → i ≤ j
    → j < i + rounds
    → taken (candidate_at hint j) ≡ true
unfolding probe
probe-none taken hint zero i j h a b = absurd (omega arith)
probe-none taken hint (suc rounds) i j h a b = elim (Bool-cases (taken (candidate_at hint i))) [
  | inl t ↦ elim (Bool-cases (i == j)) [
    | inl e ↦ let same : i ≡ j = ground arith in rw (← same) t
    | inr e ↦ probe-none taken hint rounds (i + 1) j (ground arith) (ground arith) (ground arith)
  ]
  | inr t ↦ absurd (ground arith)
]

none-probe :
    (taken : ℕ → Bool) (hint rounds i : ℕ)
    → ((j : ℕ) → i ≤ j → j < i + rounds → taken (candidate_at hint j) ≡ true)
    → probe taken hint rounds i ≡ none
unfolding probe
none-probe taken hint zero i h = refl
none-probe taken hint (suc rounds) i h =
    rw (h i (omega arith) (omega arith))
      (none-probe taken hint rounds (i + 1) (λ j a b. h j (omega arith) (omega arith)))

-- The IDs that the loop, whose sum wraps at 2 ^ 16, never tries: the two below the hint.
abbrev pub IsSkipped : ℕ → ℕ → Type 0
IsSkipped hint id = (2 ≤ id) × (hint ≤ id + 2) × (id < hint)

round_of : ℕ → ℕ → ℕ
round_of hint id =
    if ltb id hint then (if ltb 1 id then id + 65536 - hint else 65535 - hint) else id - hint

candidate_at-round_of :
    (hint id : ℕ)
    → InRange hint
    → InRange id
    → ¬ IsSkipped hint id
    → (candidate_at hint (round_of hint id) ≡ id) × (round_of hint id < max_endpoints_per_group)
unfolding candidate_at round_of
candidate_at-round_of hint id h k ns = ground arith

candidate_at-not-IsSkipped :
    (hint i : ℕ)
    → InRange hint
    → i < max_endpoints_per_group
    → ¬ IsSkipped hint (candidate_at hint i)
unfolding candidate_at
candidate_at-not-IsSkipped hint i h k = λ s. ground arith

abbrev pub AllTaken : (ℕ → Bool) → ℕ → Type 0
AllTaken taken hint = (id : ℕ) → InRange id → ¬ IsSkipped hint id → taken id ≡ true

pub probe-none_iff :
    (taken : ℕ → Bool) (hint n : ℕ)
    → n ≡ max_endpoints_per_group
    → InRange hint
    → (probe taken hint n 0 ≡ none) ↔ AllTaken taken hint
probe-none_iff taken hint n e h = (there, back)
  where
    there : probe taken hint n 0 ≡ none → AllTaken taken hint
    there q id r s =
        let (same, b) = candidate_at-round_of hint id h r s in
        rw same at (probe-none taken hint n 0 (round_of hint id) q (omega arith) (omega arith))

    back : AllTaken taken hint → probe taken hint n 0 ≡ none
    back all = none-probe taken hint n 0 (λ j a b.
        all (candidate_at hint j) (candidate_at-InRange hint j)
          (candidate_at-not-IsSkipped hint j h (omega arith)))
