-- ===== src/Limiter/TokenBucket.antt =====
-- services/core/limiter/tokenbucket.go: Tier 1. The mutex makes each method one step, so a method
-- is a function of the limiter's fields.
pub mod Laws
use rate_cap.Prelude.{Bool, true, false, Option, none, some, if◌then◌else◌, []}
use rate_cap.Prelude.Int.{ℤ, pos}
use rate_cap.Limiter.{
  Action, allow, reject_429, shadow_log, Decision, no_decision, Request, Error, Checked, returned,
  BucketReply, Backend,
}

pub record TokenBucketLimiter : Type 0 where
  pub rate : ℤ
  pub burst : ℤ
  pub shadow_mode : Bool

abbrev pub new_token_bucket_limiter : ℤ → ℤ → Bool → TokenBucketLimiter
new_token_bucket_limiter rate burst shadow = record {
  rate = rate;
  burst = burst;
  shadow_mode = shadow;
}

unfoldable pub reconfigure : ℤ → ℤ → Bool → TokenBucketLimiter → TokenBucketLimiter
reconfigure rate burst shadow l = record l { rate = rate; burst = burst; shadow_mode = shadow }

-- The limiter after the call, and `previous`.
unfoldable pub set_rate : ℤ → TokenBucketLimiter → TokenBucketLimiter × ℤ
set_rate rate l = (record l { rate = rate }, l.rate)

unfoldable pub burst_of : TokenBucketLimiter → ℤ
burst_of l = l.burst

-- The decision for a reply that carries no error.
unfoldable pub decide : TokenBucketLimiter → BucketReply → Decision
decide l r =
    if r.allowed
    then record no_decision {
      action = allow;
      tier = "rate_limiter";
      limit = l.burst;
      remaining = r.remaining;
    }
    else record no_decision {
      action = if l.shadow_mode then shadow_log else reject_429;
      retry_after_ms = r.retry_after_ms;
      tier = "rate_limiter";
      limit = l.burst;
      remaining = r.remaining;
    }

module _ (b : Backend) where
  open b use {State, check_and_decrement, record_fail_open}

  -- A store error fails open, and is counted.
  unfoldable pub settle : TokenBucketLimiter → Option Error → BucketReply → State → Checked × State
  settle l (some e) r s = (
    returned (record no_decision { action = allow; tier = "rate_limiter" }) none,
    record_fail_open "rate_limiter" "store_error" s,
  )
  settle l none r s = (returned (decide l r) none, s)

  unfoldable pub check : TokenBucketLimiter → Request → State → Checked × State
  unfolding settle decide
  check l req s =
      let (r, s') = check_and_decrement req.key l.rate l.burst req.cost s in settle l r.err r s'
