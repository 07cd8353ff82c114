-- ===== src/Swarm/Registrar/Ids.antt =====
-- swarm/registrar.go, `allocateID`, in uint16 arithmetic.
pub mod Probing
pub mod Allocation
use gole.Base.{
  ℕ, zero, suc, ◌+◌, ◌-◌, ◌%◌, ◌^◌, Bool, Option, none, some, [], ltb, ◌==◌, nat_eq, if◌then◌else◌,
}
use gole.Base.Dict.{lookup, insert, Dict}
use gole.Swarm.Registrar.State.{Registrar, get_or, is_id_taken, max_endpoints_per_group}

unfoldable pub hints : Dict ℕ (Dict ℕ ℕ) → ℕ → Dict ℕ ℕ
hints m d = get_or (lookup d m) []

-- r.nextID[domain][group], 0 if there is none
unfoldable pub hint_of : Registrar → ℕ → ℕ → ℕ
unfolding hints
hint_of r d g = get_or (lookup g (hints r.next_id d)) 0

-- The candidate of round i: `hint + i` wraps at 2 ^ 16.
unfoldable pub candidate_at : ℕ → ℕ → ℕ
candidate_at hint i =
    let sum = (hint + i) % 2 ^ 16 in
    let positive = if sum == 0 then 1 else sum in
    if ltb max_endpoints_per_group positive then positive - max_endpoints_per_group else positive

-- The loop from round i on, with `rounds` rounds left.
unfoldable pub probe : (ℕ → Bool) → ℕ → ℕ → ℕ → Option ℕ
probe taken hint zero i = none
probe taken hint (suc rounds) i =
    let rest = probe taken hint rounds (i + 1) in
    if taken (candidate_at hint i) then rest else some (candidate_at hint i)

unfoldable pub hint_after : ℕ → ℕ
hint_after candidate = if ltb max_endpoints_per_group (candidate + 1) then 1 else candidate + 1

unfoldable pub set_hint : Registrar → ℕ → ℕ → ℕ → Registrar
set_hint r d g next = record r { next_id = insert d (insert g next (hints r.next_id d)) r.next_id }

-- allocateID: the domain's hint map is made first, and stays when no ID is found.
unfoldable pub allocate_id : Registrar → ℕ → ℕ → Registrar × Option ℕ
allocate_id r d g =
    let hint = if hint_of r d g == 0 then 1 else hint_of r d g in
    elim (probe (is_id_taken r d g) hint max_endpoints_per_group 0) [
      | none ↦ (record r { next_id = insert d (hints r.next_id d) r.next_id }, none)
      | some id ↦ (set_hint r d g (hint_after id), some id)
    ]
