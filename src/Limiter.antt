-- ===== src/Limiter.antt =====
-- services/core/limiter: the data that the tiers exchange (limiter.go), and the interface through
-- which they reach the shared store and the fail-open counter.
pub mod TokenBucket
pub mod Concurrency
pub mod Fleet
pub mod Pipeline
use rate_cap.Prelude.{ℕ, String, Bool, List, [], Option}
use rate_cap.Prelude.Int.{ℤ, pos}

pub data Action : Type 0 where
  allow reject_429 reject_503 shadow_log queue : Action

pub data Priority : Type 0 where
  sheddable critical : Priority

pub record TokenReservation : Type 0 where
  pub key : String
  pub token : String

pub record Decision : Type 0 where
  pub action : Action
  pub retry_after_ms : ℤ
  pub reservations : List TokenReservation
  pub tier : String
  pub limit : ℤ
  pub remaining : ℤ

-- `Decision{}`, the zero value.
abbrev pub no_decision : Decision
no_decision = record {
  action = allow;
  retry_after_ms = pos 0;
  reservations = [];
  tier = "";
  limit = pos 0;
  remaining = pos 0;
}

pub record Request : Type 0 where
  pub key : String
  pub cost : ℤ
  pub skip_reservations : Bool
  pub priority : Priority

-- A Go `error` is its message.
abbrev pub Error : Type 0
Error = String

-- How a wait in `select` ends: the deadline timer fires, or the context is done with an error.
pub data Ending : Type 0 where
  deadline : Ending
  ctx_done : Error → Ending

-- What the runtime will do while a call waits: the ticker fires `polls` times before `ending`.
pub record Context : Type 0 where
  pub polls : ℕ
  pub ending : Ending

-- What `Check` does: it returns `(Decision, error)`, or it panics.
pub data Checked : Type 0 where
  returned : Decision → Option Error → Checked
  panicked : Checked

-- The results of `CheckAndDecrement` and of `IncrConcurrent`.
pub record BucketReply : Type 0 where
  pub allowed : Bool
  pub retry_after_ms : ℤ
  pub remaining : ℤ
  pub err : Option Error

pub record SlotReply : Type 0 where
  pub allowed : Bool
  pub token : String
  pub err : Option Error

-- The interfaces `checker`, `concurrencyChecker`, `concurrencyReleaser` and `refunder`, and the
-- counter behind `RecordFailOpen`. A call may change the state behind it, also where it fails.
pub record Backend : Type 1 where
  pub State : Type 0
  pub check_and_decrement : String → ℤ → ℤ → ℤ → State → BucketReply × State
  pub incr_concurrent : String → ℤ → ℤ → State → SlotReply × State
  pub decr_concurrent : String → String → State → Option Error × State
  pub refund_tokens : String → ℤ → ℤ → State → Option Error × State
  pub record_fail_open : String → String → State → State
