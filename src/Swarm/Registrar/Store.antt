-- ===== src/Swarm/Registrar/Store.antt =====
-- swarm/registrar.go: how a write of one endpoint shows in the reads of the others.
use gole.Base.{ℕ, ◌≡◌, ◌&&◌, Option, some, [], arith, ◌==◌, nat_eq, if◌then◌else◌}
use gole.Base.Dict.{Dict, lookup, insert, lookup-insert}
use gole.Swarm.Types.Enroll.{RegisteredEndpoint}
use gole.Swarm.Registrar.State.{Group, Endpoints, get_or, groups, members, put_endpoint}

pub groups-insert :
    (eps : Endpoints) (d d' : ℕ) (m : Dict ℕ Group)
    → groups (insert d m eps) d' ≡ (if d == d' then m else groups eps d')
unfolding groups
groups-insert eps d d' m = ground (arith, lookup-insert d d' m eps)

-- The members of a group after one member is written.
pub members-put_endpoint :
    (eps : Endpoints) (d g e d' g' : ℕ) (ep : RegisteredEndpoint)
    → members (put_endpoint eps d g e ep) d' g'
      ≡ (if (d == d') && (g == g') then insert e ep (members eps d g) else members eps d' g')
unfolding members put_endpoint
members-put_endpoint eps d g e d' g' ep =
    let ms : Group = insert e ep (get_or (lookup g (groups eps d)) []) in
    ground (
      arith,
      groups-insert eps d d' (insert g ms (groups eps d)),
      lookup-insert g g' ms (groups eps d),
    )

abbrev pub find_endpoint : Endpoints → ℕ → ℕ → ℕ → Option RegisteredEndpoint
find_endpoint eps d g e = lookup e (members eps d g)

pub find-put_endpoint :
    (eps : Endpoints) (d g e d' g' e' : ℕ) (ep : RegisteredEndpoint)
    → find_endpoint (put_endpoint eps d g e ep) d' g' e'
      ≡ (if (d == d') && ((g == g') && (e == e')) then some ep else find_endpoint eps d' g' e')
find-put_endpoint eps d g e d' g' e' ep =
    rw (members-put_endpoint eps d g e d' g' ep)
      (ground (arith, lookup-insert e e' ep (members eps d g)))
