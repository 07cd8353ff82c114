-- ===== src/Swarm/Demo.antt =====
-- cmd/swarm/demo.go: an endpoint that enrolls with a registrar of its own and is activated. The
-- keys, the registrar's random bytes, the fingerprint that DeriveFingerprint gives and the times,
-- one for the calls of AutoEnroll and one for the activation, are arguments, and so is what the administrator's goroutine does between
-- polls. What is printed is not modelled.
use gole.Base.{
  ℕ, Bool, not, ◌&&◌, ◌||◌, Option, none, some, List, Bytes, codes, if◌then◌else◌, ◌==◌, nat_eq,
  length, take, leb,
}
use gole.Base.Int.{ℤ, pos}
use gole.Base.Result.{Result, ok, err}
use gole.Swarm.Types.Address.{role_relay}
use gole.Swarm.Paseto.{Crypto}
use gole.Swarm.Registrar.State.{Registrar, new_registrar}
use gole.Swarm.Registrar.Enrollment.{RegistrarError, Outcome, pre_approve}
use gole.Swarm.Registrar.Trace.{Call}
use gole.Swarm.Endpoint.State.{Endpoint, EndpointError, Joint, new_endpoint}
use gole.Swarm.Endpoint.Lifecycle.{auto_enroll, activate}
use gole.Swarm.Config.{ConfigError, parse_role}
mod Approved
mod Granted
pub mod ZeroTouch

pub data DemoError : Type 0 where
  exclusive_flags : DemoError
  invalid_role : ConfigError → DemoError
  no_fingerprint : DemoError
  pre_approve_failed : RegistrarError → DemoError
  auto_enroll_failed : EndpointError → DemoError
  activate_failed : EndpointError → DemoError

-- What the demo is given: its flags and the random parts
pub record DemoInput : Type 0 where
  pub pending : Bool
  pub denied : Bool
  pub role : Bytes
  pub fp : Option Bytes
  pub registrar_secret : Bytes
  pub endpoint_secret : Bytes
  pub nonce : Option Bytes
  pub id_bytes : Option Bytes
  pub now : ℤ
  pub activated_at : ℤ
  pub ticks : List (List Call)

-- time.Hour
abbrev pub hour : ℤ
hour = pos 3600000000000

-- The registrar after the pre-approval, which the default path alone makes
unfoldable pub prepare : Bool → Bytes → Registrar → Outcome (Unit {0})
prepare auto fp r = if auto then pre_approve fp 1 1 r else (r, ok tt)

module _ (c : Crypto) where
  -- The call of Activate
  unfoldable pub then_activate : ℤ → Joint (Unit {0}) → Endpoint × Result DemoError (Unit {0})
  then_activate at (e, (r, err x)) = (e, err (auto_enroll_failed x))
  then_activate at (e, (r, ok u)) =
      let (e', (r', res)) = activate c at e r in
      elim res [ err x ↦ (e', err (activate_failed x)) | ok v ↦ (e', ok tt) ]

  -- From NewEndpoint on
  unfoldable pub then_enroll :
      DemoInput → ℕ → Bytes → Outcome (Unit {0}) → Endpoint × Result DemoError (Unit {0})
  then_enroll i role fp (r, err x) =
      (new_endpoint (c.public_of i.endpoint_secret) i.endpoint_secret, err (pre_approve_failed x))
  then_enroll i role fp (r, ok u) = then_activate i.activated_at (
      auto_enroll c (some fp) role i.nonce i.id_bytes i.now i.ticks
        (new_endpoint (c.public_of i.endpoint_secret) i.endpoint_secret) r)

  -- runDemo, with the endpoint as it is at the end
  unfoldable pub run_demo : DemoInput → Endpoint × Result DemoError (Unit {0})
  run_demo i =
      let e = new_endpoint (c.public_of i.endpoint_secret) i.endpoint_secret in
      if i.pending && i.denied then (e, err exclusive_flags) else (elim (parse_role i.role) [
        | err x ↦ (e, err (invalid_role x))
        | ok role ↦ elim i.fp [
          | none ↦ (e, err no_fingerprint)
          | some fp ↦ then_enroll i role fp (
              prepare (not i.pending && (not i.denied && not (role == role_relay))) fp
                (new_registrar (c.public_of i.registrar_secret) i.registrar_secret hour))
        ]
      ])
