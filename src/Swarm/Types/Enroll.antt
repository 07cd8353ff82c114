-- ===== src/Swarm/Types/Enroll.antt =====
-- swarm/types.go: the messages of the three-phase enrollment, and the registered endpoint.
use gole.Base.{ℕ, Option, List, Bytes}
use gole.Base.Int.{ℤ}
use gole.Swarm.Types.Address.{EndpointAddr}
use gole.Swarm.Types.Transport.{RelayInfo}

pub record EnrollRequest : Type 0 where
  pub public_key : Bytes
  pub fingerprint : Bytes
  pub role_flags : ℕ

pub record EnrollResponse : Type 0 where
  pub request_id : Bytes
  pub challenge : Bytes

pub record EnrollConfirm : Type 0 where
  pub request_id : Bytes
  pub signature : Bytes

pub record EnrollResult : Type 0 where
  pub address : EndpointAddr
  pub token : Bytes

-- `result` is nil, `none` here, unless the state is registered.
pub record EnrollStatus : Type 0 where
  pub state : ℕ
  pub result : Option EnrollResult

pub record RegistrationInfo : Type 0 where
  pub id : ℕ
  pub token : Bytes
  pub registrar_key : Bytes
  pub relays : List RelayInfo

pub record PendingEnrollment : Type 0 where
  pub request_id : Bytes
  pub fingerprint : Bytes
  pub role_flags : ℕ
  pub public_key : Bytes
  pub created_at : ℤ
  pub state : ℕ

pub record RegisteredEndpoint : Type 0 where
  pub addr : EndpointAddr
  pub public_key : Bytes
  pub state : ℕ
  pub token : Bytes
  pub fingerprint : Bytes
