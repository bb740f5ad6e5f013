-- ===== src/Config.antt =====
-- services/core/config/config.go, and the wiring of a configuration into the three tiers by
-- services/core/main.go: at the start, and on a reload.
pub mod Validity
pub mod Reload
pub mod Watcher
use rate_cap.Prelude.{String, Bool, true, false, ◌||◌, Option, none, some, if◌then◌else◌}
use rate_cap.Prelude.Int.{ℤ, pos, ltb_ℤ, leb_ℤ}
use rate_cap.Limiter.{Error}
use rate_cap.Limiter.TokenBucket
use rate_cap.Limiter.TokenBucket.{TokenBucketLimiter, new_token_bucket_limiter}
use rate_cap.Limiter.Concurrency
use rate_cap.Limiter.Concurrency.{ConcurrencyLimiter, new_concurrency_limiter}
use rate_cap.Limiter.Fleet
use rate_cap.Limiter.Fleet.{FleetShedder, new_fleet_shedder}
use rate_cap.Limiter.Pipeline.{Tiers}

pub record RateLimiterConfig : Type 0 where
  pub default_rate : ℤ
  pub default_burst : ℤ
  pub shadow_mode : Bool

pub record ConcurrencyLimiterConfig : Type 0 where
  pub default_max_concurrent : ℤ
  pub max_request_duration_ms : ℤ
  pub shadow_mode : Bool
  pub queueing_enabled : Bool
  pub max_backlog : ℤ
  pub max_queue_wait_ms : ℤ
  pub poll_interval_ms : ℤ

pub record FleetShedderConfig : Type 0 where
  pub default_max_concurrent : ℤ
  pub reserved_critical_pct : ℤ
  pub max_request_duration_ms : ℤ
  pub shadow_mode : Bool

pub record Config : Type 0 where
  pub rate_limiter : RateLimiterConfig
  pub concurrency_limiter : ConcurrencyLimiterConfig
  pub fleet_shedder : FleetShedderConfig

unfoldable pub validate_queueing : ConcurrencyLimiterConfig → Option Error
validate_queueing c =
    if leb_ℤ c.max_backlog (pos 0)
    then some "tiers.concurrency_limiter.max_backlog must be > 0 when queueing_enabled is true"
    else (if leb_ℤ c.max_queue_wait_ms (pos 0)
        then some
            "tiers.concurrency_limiter.max_queue_wait_ms must be > 0 when queueing_enabled is true"
        else (if leb_ℤ c.poll_interval_ms (pos 0)
            then some
                "tiers.concurrency_limiter.poll_interval_ms must be > 0 when queueing_enabled is true"
            else (if ltb_ℤ c.max_queue_wait_ms c.poll_interval_ms
                then some
                    "tiers.concurrency_limiter.poll_interval_ms must not exceed max_queue_wait_ms"
                else none)))

-- The messages leave out the offending values.
unfoldable pub validate : Config → Option Error
validate c =
    if leb_ℤ c.rate_limiter.default_rate (pos 0)
    then some "tiers.rate_limiter.default_rate must be > 0"
    else (if ltb_ℤ c.rate_limiter.default_burst (pos 0)
        then some "tiers.rate_limiter.default_burst must be >= 0"
        else (if leb_ℤ c.concurrency_limiter.default_max_concurrent (pos 0)
            then some "tiers.concurrency_limiter.default_max_concurrent must be > 0"
            else (if leb_ℤ c.fleet_shedder.default_max_concurrent (pos 0)
                then some "tiers.fleet_shedder.default_max_concurrent must be > 0"
                else (if ltb_ℤ c.fleet_shedder.reserved_critical_pct (pos 0)
                      || ltb_ℤ (pos 100) c.fleet_shedder.reserved_critical_pct
                    then some
                        "tiers.fleet_shedder.reserved_critical_pct must be between 0 and 100 inclusive"
                    else (if c.concurrency_limiter.queueing_enabled
                        then validate_queueing c.concurrency_limiter
                        else none)))))

-- The limiters that `main` builds from a configuration.
unfoldable pub build_tiers : Config → Tiers
build_tiers c = record {
  rate_limiter =
      new_token_bucket_limiter c.rate_limiter.default_rate c.rate_limiter.default_burst
        c.rate_limiter.shadow_mode;
  concurrency_limiter =
      new_concurrency_limiter c.concurrency_limiter.default_max_concurrent
        c.concurrency_limiter.max_request_duration_ms c.concurrency_limiter.shadow_mode
        c.concurrency_limiter.queueing_enabled c.concurrency_limiter.max_backlog
        c.concurrency_limiter.max_queue_wait_ms c.concurrency_limiter.poll_interval_ms;
  fleet_shedder =
      new_fleet_shedder c.fleet_shedder.default_max_concurrent c.fleet_shedder.reserved_critical_pct
        c.fleet_shedder.max_request_duration_ms c.fleet_shedder.shadow_mode;
}

-- The three calls of `Reconfigure`.
reconfigure_tiers : Config → Tiers → Tiers
reconfigure_tiers c t = record {
  rate_limiter =
      TokenBucket.reconfigure c.rate_limiter.default_rate c.rate_limiter.default_burst
        c.rate_limiter.shadow_mode t.rate_limiter;
  concurrency_limiter =
      Concurrency.reconfigure c.concurrency_limiter.default_max_concurrent
        c.concurrency_limiter.max_request_duration_ms c.concurrency_limiter.shadow_mode
        c.concurrency_limiter.queueing_enabled c.concurrency_limiter.max_backlog
        c.concurrency_limiter.max_queue_wait_ms c.concurrency_limiter.poll_interval_ms
        t.concurrency_limiter;
  fleet_shedder =
      Fleet.reconfigure c.fleet_shedder.default_max_concurrent c.fleet_shedder.reserved_critical_pct
        c.fleet_shedder.max_request_duration_ms c.fleet_shedder.shadow_mode t.fleet_shedder;
}

-- What the watcher hands to `onChange`: `(nil, err)` or `(cfg, nil)`.
pub data Loaded : Type 0 where
  failed : Error → Loaded
  loaded : Config → Loaded

-- The callback, with the label that `RecordConfigReload` counts.
on_validated : Config → Option Error → Tiers → Tiers × String
unfolding reconfigure_tiers
on_validated c (some e) t = (t, "failure")
on_validated c none t = (reconfigure_tiers c t, "success")

unfoldable pub on_change : Loaded → Tiers → Tiers × String
unfolding on_validated
on_change (failed e) t = (t, "failure")
on_change (loaded c) t = on_validated c (validate c) t
