-- ===== src/Tests/Cores.antt =====
-- The configuration and the server of the core.
use rate_cap.Prelude.{List, [], ◌∷◌, String, true, false, [], none, ◌≡◌, ◌≢◌, ◌⊎◌, refl, arith}
use rate_cap.Prelude.Int.{pos, wrap32}
use rate_cap.Limiter.{Context, deadline, Backend}
use rate_cap.Limiter.TokenBucket.{set_rate}
use rate_cap.Limiter.Concurrency.Ledger.{ledger_backend}
use rate_cap.Config.{Config, validate, validate_queueing, build_tiers, loaded, failed, on_change}
use rate_cap.Config.Validity.{IsValid, validate_iff}
use rate_cap.Config.Watcher.{
  Event, file_event, timer_fired, stopped, Watcher, run, Served, run-Served,
}
use rate_cap.Config.Reload.{on_change_lem}
use rate_cap.Proto.{ProtoPriority, CheckRateLimitRequest}
use rate_cap.Store.Token.{sign_token}
use rate_cap.Server.{
  Server, status, permission_denied, crash, check_rate_limit, release_concurrency,
  set_dynamic_limit,
}
use rate_cap.Server.Checks.{check_rate_limit-ne-crash, release_concurrency_signed}
use rate_cap.Server.Admin.{set_dynamic_limit_undo}

abbrev config : Config
config = record {
  rate_limiter = record { default_rate = pos 5; default_burst = pos 10; shadow_mode = false };
  concurrency_limiter = record {
    default_max_concurrent = pos 2;
    max_request_duration_ms = pos 1000;
    shadow_mode = false;
    queueing_enabled = true;
    max_backlog = pos 3;
    max_queue_wait_ms = pos 50;
    poll_interval_ms = pos 10;
  };
  fleet_shedder = record {
    default_max_concurrent = pos 30;
    reserved_critical_pct = pos 20;
    max_request_duration_ms = pos 1000;
    shadow_mode = false;
  };
}

on_change_lem_example :
    ((c : Config) × (loaded config ≡ loaded c)
      × IsValid c
      × (on_change (loaded config) (build_tiers config) ≡ (build_tiers c, "success")))
    ⊎ (((c : Config) → loaded config ≡ loaded c → ¬ IsValid c)
        × (on_change (loaded config) (build_tiers config) ≡ (build_tiers config, "failure")))
on_change_lem_example = on_change_lem (loaded config) (build_tiers config)

config_validates : validate config ≡ none
unfolding validate validate_queueing
config_validates = refl

-- A store that grants nothing.
abbrev refusing : Backend
refusing = ledger_backend (record {
  bucket =
      λ n key. record { allowed = true; retry_after_ms = pos 0; remaining = pos 0; err = none };
  slot = λ n key cap. record { allowed = false; token = ""; err = none };
})

abbrev server : Server refusing
server = record { tiers = build_tiers config; store = record { calls = 0; held = [] } }

abbrev ctx : Context
ctx = record { polls = 3; ending = deadline }

abbrev req : CheckRateLimitRequest
req = record {
  key = "k";
  cost = pos 1;
  skip_reservations = false;
  priority = ProtoPriority.critical;
}

check_rate_limit-ne-crash_example : (check_rate_limit refusing ctx req server).0 ≢ crash
check_rate_limit-ne-crash_example =
    check_rate_limit-ne-crash refusing config 10 ctx req server config_validates refl (omega arith)
      refl

abbrev tag : String → String → String
tag key text = "0f"

release_concurrency_signed_example :
    (release_concurrency refusing tag "secret" "k" "3e.0f" server
      ≡ (status permission_denied "invalid concurrency token", server))
    ⊎ ((u : String) × ("3e.0f" ≡ sign_token tag u "secret"))
release_concurrency_signed_example =
    release_concurrency_signed refusing tag "secret" "k" "3e.0f" server

set_dynamic_limit_undo_example :
    (set_dynamic_limit refusing "rate_limiter"
      (pos 5)
      (set_dynamic_limit refusing "rate_limiter" (pos 40) server).1).1
    ≡ server
unfolding set_dynamic_limit set_rate wrap32 build_tiers
set_dynamic_limit_undo_example =
    set_dynamic_limit_undo refusing "rate_limiter" (pos 40) server
      (record { tier = "rate_limiter"; previous_value = pos 5; new_value = pos 40 }) 20 refl refl
      (omega arith) refl

abbrev watcher : Watcher
watcher = record { tiers = build_tiers config; labels = []; timer_runs = false; returned = false }

abbrev events : List Event
events =
    file_event true
    ∷ timer_fired (failed "bad yaml")
    ∷ file_event true
    ∷ timer_fired (loaded config)
    ∷ stopped
    ∷ []

run-Served_example : Served (run events watcher).tiers
run-Served_example =
    run-Served events watcher (config, (validate_iff config).0 config_validates, refl)
