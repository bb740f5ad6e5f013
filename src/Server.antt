-- ===== src/Server.antt =====
-- services/core/grpcserver/server.go: the four RPCs, over the pipeline and the store.
pub mod Accounts
pub mod Checks
pub mod Admin
use rate_cap.Prelude.{
  ℕ, String, Bool, true, false, List, [], ◌∷◌, Option, none, some, if◌then◌else◌, ◌==◌,
}
use rate_cap.Prelude.Int.{ℤ, pos, leb_ℤ, wrap32}
use rate_cap.Limiter.{
  Action, allow, reject_429, reject_503, shadow_log, queue, Priority, sheddable, critical,
  TokenReservation, Decision, Request, Error, Context, Checked, returned, panicked, Backend,
}
use rate_cap.Limiter.TokenBucket.{set_rate, burst_of}
use rate_cap.Limiter.Fleet.{FleetShedder, set_reserved_critical_pct}
use rate_cap.Limiter.Pipeline.{Tiers, new_pipeline, check}
use rate_cap.Store.Token.{verify_token}
use rate_cap.Proto.{
  ProtoAction, ProtoPriority, CheckRateLimitRequest, CheckRateLimitResponse,
  SetDynamicLimitResponse,
}

pub data Code : Type 0 where
  invalid_argument permission_denied internal : Code

-- An RPC replies, fails with a status, or takes the process down by a panic.
pub data Rpc (A : Type 0) : Type 0 where
  reply : A → Rpc A
  status : Code → String → Rpc A
  crash : Rpc A

-- The log line aside.
abbrev pub internal_error : {A : Type 0} → Rpc A
internal_error = status internal "internal error"

-- An unknown number keeps the value set before the `switch`.
unfoldable pub to_priority : ProtoPriority → Priority
to_priority ProtoPriority.critical = critical
to_priority ProtoPriority.sheddable = sheddable
to_priority ProtoPriority.unspecified = sheddable
to_priority (ProtoPriority.unrecognized n) = sheddable

unfoldable pub to_proto_action : Action → ProtoAction
to_proto_action allow = ProtoAction.allow
to_proto_action reject_429 = ProtoAction.reject_429
to_proto_action reject_503 = ProtoAction.reject_503
to_proto_action shadow_log = ProtoAction.shadow_log
to_proto_action queue = ProtoAction.queue

abbrev pub to_response : Decision → CheckRateLimitResponse
to_response d = record {
  action = to_proto_action d.action;
  retry_after_ms = d.retry_after_ms;
  reservations = d.reservations;
  tier = d.tier;
  limit = d.limit;
  remaining = d.remaining;
}

abbrev pub to_request : CheckRateLimitRequest → Request
to_request req = record {
  key = req.key;
  cost = req.cost;
  skip_reservations = req.skip_reservations;
  priority = to_priority req.priority;
}

respond : Checked → Rpc CheckRateLimitResponse
respond (returned d none) = reply (to_response d)
respond (returned d (some e)) = internal_error
respond panicked = crash

module _ (b : Backend) where
  open b use {State, decr_concurrent, refund_tokens}

  -- The server shares its limiters with the pipeline, and its store with all.
  pub record Server : Type 0 where
    pub tiers : Tiers
    pub store : State

  unfoldable pub check_rate_limit :
      Context → CheckRateLimitRequest → Server → Rpc CheckRateLimitResponse × Server
  unfolding to_priority respond
  check_rate_limit ctx req s =
      if leb_ℤ req.cost (pos 0)
      then (status invalid_argument "cost must be greater than 0", s)
      else (let (r, store) = check (new_pipeline b s.tiers) ctx (to_request req) s.store in
          (respond r, record s { store = store }))

  finish : Option Error → Rpc (Unit {0})
  finish none = reply tt
  finish (some e) = internal_error

  unfoldable pub release_concurrency :
      (String → String → String) → String → String → String → Server → Rpc (Unit {0}) × Server
  unfolding finish
  release_concurrency mac signing_key key token s =
      if verify_token mac token signing_key
      then (let (e, store) = decr_concurrent key token s.store in
          (finish e, record s { store = store }))
      else (status permission_denied "invalid concurrency token", s)

  set_pct :
      String → ℤ → FleetShedder × ℤ × Option Error → Server → Rpc SetDynamicLimitResponse × Server
  set_pct tier value (l, previous, some e) s =
      (status invalid_argument e, record s { tiers = record s.tiers { fleet_shedder = l } })
  set_pct tier value (l, previous, none) s = (
    reply (record { tier = tier; previous_value = wrap32 previous; new_value = value }),
    record s { tiers = record s.tiers { fleet_shedder = l } },
  )

  unfoldable pub set_dynamic_limit : String → ℤ → Server → Rpc SetDynamicLimitResponse × Server
  unfolding set_pct
  set_dynamic_limit tier value s =
      if tier == "rate_limiter"
      then (let (l, previous) = set_rate value s.tiers.rate_limiter in
          (
            reply (record { tier = tier; previous_value = wrap32 previous; new_value = value }),
            record s { tiers = record s.tiers { rate_limiter = l } },
          ))
      else (if tier == "fleet_shedder"
          then set_pct tier value (set_reserved_critical_pct value s.tiers.fleet_shedder) s
          else (status invalid_argument "tier must be \"rate_limiter\" or \"fleet_shedder\"", s))

  -- The limiter in production has the method `Burst`, so the type assertion succeeds.
  unfoldable pub refund_cost : String → ℤ → Server → Rpc (Unit {0}) × Server
  unfolding finish
  refund_cost key amount s =
      let (e, store) = refund_tokens key (burst_of s.tiers.rate_limiter) amount s.store in
      (finish e, record s { store = store })
