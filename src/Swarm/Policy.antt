-- ===== src/Swarm/Policy.antt =====
-- swarm/policy.go: flow policies. `none` is Go's nil error.
use gole.Base.{ℕ, Bool, ◌&&◌, Option, none, some, List, [], ◌∷◌, Bytes, ◌==◌, nat_eq, if◌then◌else◌}
use gole.Swarm.Types.Address.{EndpointAddr, addr_role, addr_string}

pub data PolicyError : Type 0 where
  not_in_allow_list : PolicyError
  blocked : Bytes → PolicyError
  other : Bytes → PolicyError

-- FlowPolicy: its one method
abbrev pub FlowPolicy : Type 0
FlowPolicy = EndpointAddr → EndpointAddr → Option PolicyError

pub record FlowRule : Type 0 where
  pub from_domain : ℕ
  pub from_group : ℕ
  pub from_role : ℕ
  pub to_domain : ℕ
  pub to_group : ℕ
  pub to_role : ℕ

unfoldable pub rule_matches : FlowRule → EndpointAddr → EndpointAddr → Bool
rule_matches r from to =
    (r.from_domain == from.domain)
    && ((r.from_group == from.group)
        && ((r.from_role == addr_role from)
            && ((r.to_domain == to.domain)
                && ((r.to_group == to.group) && (r.to_role == addr_role to)))))

-- AllowListPolicy.Evaluate
unfoldable pub allow_list_policy : List FlowRule → FlowPolicy
allow_list_policy [] from to = some not_in_allow_list
allow_list_policy (r ∷ rs) from to =
    if rule_matches r from to then none else allow_list_policy rs from to

unfoldable pub same_endpoint : EndpointAddr → EndpointAddr → Bool
same_endpoint a b = (a.domain == b.domain) && ((a.group == b.group) && (a.endpoint == b.endpoint))

-- DenyEndpointPolicy.Evaluate
unfoldable pub deny_endpoint_policy : List EndpointAddr → FlowPolicy
deny_endpoint_policy [] from to = none
deny_endpoint_policy (b ∷ bs) from to =
    if same_endpoint from b
    then some (blocked (addr_string from))
    else deny_endpoint_policy bs from to
