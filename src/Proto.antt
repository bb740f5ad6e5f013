-- ===== src/Proto.antt =====
-- The messages of proto/ratecap/v1, as ratecap.pb.go declares them.
use rate_cap.Prelude.{String, Bool, List}
use rate_cap.Prelude.Int.{ℤ}
use rate_cap.Limiter.{TokenReservation}

-- The enums of proto/ratecap/v1. They are open: a peer may send a number that has no name here.
pub data ProtoAction : Type 0 where
  allow reject_429 reject_503 shadow_log queue : ProtoAction
  unrecognized : ℤ → ProtoAction

pub data ProtoPriority : Type 0 where
  unspecified sheddable critical : ProtoPriority
  unrecognized : ℤ → ProtoPriority

pub record CheckRateLimitRequest : Type 0 where
  pub key : String
  pub cost : ℤ
  pub skip_reservations : Bool
  pub priority : ProtoPriority

pub record CheckRateLimitResponse : Type 0 where
  pub action : ProtoAction
  pub retry_after_ms : ℤ
  pub reservations : List TokenReservation
  pub tier : String
  pub limit : ℤ
  pub remaining : ℤ

pub record SetDynamicLimitResponse : Type 0 where
  pub tier : String
  pub previous_value : ℤ
  pub new_value : ℤ
