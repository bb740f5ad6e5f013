-- ===== src/Config/Validity.antt =====
-- What a configuration that `Validate` accepts satisfies (services/core/config/config.go).
use rate_cap.Prelude.{true, false, none, ◌≡◌, ◌↔◌, arith}
use rate_cap.Prelude.Int.{ℤ, pos, negsuc, ◌≤ℤ◌, leb_ℤ, ltb_ℤ}
use rate_cap.Config.{Config, ConcurrencyLimiterConfig, validate, validate_queueing}

abbrev ValidQueueing : ConcurrencyLimiterConfig → Type 0
ValidQueueing c =
    (pos 1 ≤ℤ c.max_backlog)
    × (pos 1 ≤ℤ c.poll_interval_ms)
    × (c.poll_interval_ms ≤ℤ c.max_queue_wait_ms)

-- What the tiers need of a configuration.
abbrev pub IsValid : Config → Type 0
IsValid c =
    (pos 1 ≤ℤ c.rate_limiter.default_rate)
    × (pos 0 ≤ℤ c.rate_limiter.default_burst)
    × (pos 1 ≤ℤ c.concurrency_limiter.default_max_concurrent)
    × (pos 1 ≤ℤ c.fleet_shedder.default_max_concurrent)
    × (pos 0 ≤ℤ c.fleet_shedder.reserved_critical_pct)
    × (c.fleet_shedder.reserved_critical_pct ≤ℤ pos 100)
    × (c.concurrency_limiter.queueing_enabled ≡ true → ValidQueueing c.concurrency_limiter)

pub leb_ℤ_iff : (a b : ℤ) → (leb_ℤ a b ≡ true) ↔ (a ≤ℤ b)
leb_ℤ_iff (pos a) (pos b) = ground arith
leb_ℤ_iff (pos a) (negsuc b) = ground arith
leb_ℤ_iff (negsuc a) (pos b) = ground arith
leb_ℤ_iff (negsuc a) (negsuc b) = ground arith

positive : (a : ℤ) → (leb_ℤ a (pos 0) ≡ false) ↔ (pos 1 ≤ℤ a)
positive (pos a) = ground arith
positive (negsuc a) = ground arith

pub nonneg : (a : ℤ) → (ltb_ℤ a (pos 0) ≡ false) ↔ (pos 0 ≤ℤ a)
nonneg (pos a) = ground arith
nonneg (negsuc a) = ground arith

pub within : (a b : ℤ) → (ltb_ℤ b a ≡ false) ↔ (a ≤ℤ b)
within (pos a) (pos b) = ground arith
within (pos a) (negsuc b) = ground arith
within (negsuc a) (pos b) = ground arith
within (negsuc a) (negsuc b) = ground arith

validate_queueing_iff :
    (c : ConcurrencyLimiterConfig) → (validate_queueing c ≡ none) ↔ ValidQueueing c
unfolding validate_queueing
validate_queueing_iff c = ground (
  arith,
  positive c.max_backlog,
  positive c.max_queue_wait_ms,
  positive c.poll_interval_ms,
  within c.poll_interval_ms c.max_queue_wait_ms,
)

-- `validate` accepts a configuration exactly if it meets what the tiers need of it: a positive
-- rate and caps, a burst that is not negative, a percentage from 0 to 100 and, with queueing, a
-- positive backlog and a positive poll interval that does not exceed the wait.
pub validate_iff : (c : Config) → (validate c ≡ none) ↔ IsValid c
unfolding validate
validate_iff c = ground (
  arith,
  positive c.rate_limiter.default_rate,
  nonneg c.rate_limiter.default_burst,
  positive c.concurrency_limiter.default_max_concurrent,
  positive c.fleet_shedder.default_max_concurrent,
  nonneg c.fleet_shedder.reserved_critical_pct,
  within c.fleet_shedder.reserved_critical_pct (pos 100),
  validate_queueing_iff c.concurrency_limiter,
)
