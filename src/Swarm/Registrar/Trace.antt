-- ===== src/Swarm/Registrar/Trace.antt =====
-- swarm/registrar.go: a registrar's life as a sequence of calls. Calls that only read leave it as
-- it is and are left out.
use gole.Base.{ℕ, Option, List, [], ◌∷◌, Bytes}
use gole.Base.Int.{ℤ}
use gole.Swarm.Types.Address.{EndpointAddr}
use gole.Swarm.Types.Enroll.{EnrollRequest, EnrollConfirm}
use gole.Swarm.Paseto.{Crypto}
use gole.Swarm.Registrar.State.{Registrar}
use gole.Swarm.Registrar.Enrollment.{
  enroll, confirm_enrollment, approve_enrollment, deny_enrollment, pre_approve,
}
use gole.Swarm.Registrar.Activation.{
  activate_endpoint, revoke_endpoint, observe_endpoint, set_relay_route, clear_reachability,
}

-- A call, with the random bytes and the time that it meets.
pub data Call : Type 0 where
  enrolls : EnrollRequest → Option Bytes → Option Bytes → ℤ → Call
  confirms : EnrollConfirm → ℤ → Call
  approves : Bytes → ℕ → ℕ → ℤ → Call
  denies : Bytes → Call
  pre_approves : Bytes → ℕ → ℕ → Call
  activates : EndpointAddr → Bytes → ℤ → Call
  revokes : EndpointAddr → Call
  observes : EndpointAddr → Bytes → Bytes → ℤ → Call
  routes : EndpointAddr → Bytes → EndpointAddr → ℤ → Call
  clears : EndpointAddr → Call

module _ (c : Crypto) where
  unfoldable pub step : Call → Registrar → Registrar
  step (enrolls req nonce id_bytes now) r = (enroll c req nonce id_bytes now r).0
  step (confirms conf now) r = (confirm_enrollment c conf now r).0
  step (approves rid d g now) r = (approve_enrollment c rid d g now r).0
  step (denies rid) r = (deny_enrollment rid r).0
  step (pre_approves fp d g) r = (pre_approve fp d g r).0
  step (activates addr token now) r = (activate_endpoint c addr token now r).0
  step (revokes addr) r = (revoke_endpoint addr r).0
  step (observes addr o proto now) r = (observe_endpoint addr o proto now r).0
  step (routes addr token relay now) r = (set_relay_route c addr token relay now r).0
  step (clears addr) r = clear_reachability addr r

  unfoldable pub run : List Call → Registrar → Registrar
  run [] r = r
  run (k ∷ ks) r = run ks (step k r)
