-- ===== src/Tests/Processes.antt =====
-- The processes at their start.
use rate_cap.Prelude.{String, true, false, [], ◌∷◌, none, some, ◌≡◌, refl, All, if◌then◌else◌, ◌==◌}
use rate_cap.Prelude.Int.{pos}
use rate_cap.Config.{Config, validate}
use rate_cap.Sidecar.Http.{parse_int}
use rate_cap.Process.Certificates.{require_and_verify, load}
use rate_cap.Process.Environment.{
  running, is_set, env_vars_partially_set, resolve_pprof_enabled, single, new_redis_client,
  parse_sentinel_addrs,
}
use rate_cap.Process.CoreMain
use rate_cap.Process.CoreMain.{Endpoint, tls, resolve_tls_mode}
use rate_cap.Process.CoreMain.Listeners.{start-secure}
use rate_cap.Process.SidecarMain
use rate_cap.Process.SidecarMain.{
  fraction, is_le_zero, resolve_max_inflight, resolve_ramp_start_pct, resolve_max_rps,
}
use rate_cap.Process.SidecarMain.Bounds.{Positive64, Percent, start-bounds}

abbrev config : Config
config = record {
  rate_limiter = record { default_rate = pos 5; default_burst = pos 10; shadow_mode = false };
  concurrency_limiter = record {
    default_max_concurrent = pos 2;
    max_request_duration_ms = pos 1000;
    shadow_mode = false;
    queueing_enabled = false;
    max_backlog = pos 0;
    max_queue_wait_ms = pos 0;
    poll_interval_ms = pos 0;
  };
  fleet_shedder = record {
    default_max_concurrent = pos 30;
    reserved_critical_pct = pos 20;
    max_request_duration_ms = pos 1000;
    shadow_mode = false;
  };
}

abbrev env : String → String
env name =
    if name == "RATECAP_TLS_MODE"
    then "strict"
    else (if (name == "RATECAP_GRPC_ADDR")
        then ":7000"
        else (if name == "RATECAP_MAX_INFLIGHT_REQUESTS"
            then "-3"
            else (if name == "RATECAP_CRITICAL_ROUTES_PATH"
                then ""
                else (if name == "RATECAP_PPROF_ENABLED"
                    then "maybe"
                    else (if name == "RATECAP_REDIS_SENTINEL_ADDRS" then "" else "x")))))

abbrev outside : CoreMain.Outside
outside = record {
  getenv = env;
  otel_ok = true;
  config = some config;
  config_watch_ok = true;
  can_listen = λ addr. true;
  pprof_ok = true;
  Cert = String;
  key_pair = some "pair";
  cert_watch_ok = true;
  authorities = some true;
}

abbrev plan : CoreMain.Plan
plan = record {
  config = config;
  redis = single "x";
  signing_key = "x";
  endpoints = record { addr = ":7000"; transport = tls require_and_verify; secret = "x" } ∷ [];
  health_addr = "x";
  metrics_addr = "x";
  pprof = false;
}

plan_started : CoreMain.start outside ≡ running plan
unfolding CoreMain.start validate resolve_tls_mode env_vars_partially_set load resolve_pprof_enabled
    new_redis_client parse_sentinel_addrs
plan_started = refl

start-secure_example :
    (is_set plan.signing_key ≡ true)
    × (validate plan.config ≡ none)
    × All (λ (e : Endpoint). (e.secret ≡ "x") × (is_set e.secret ≡ true)) plan.endpoints
    × (◌≡◌ {A = String} "strict" "strict"
        → All (λ (e : Endpoint). e.transport ≡ tls require_and_verify) plan.endpoints)
start-secure_example = start-secure outside plan plan_started

abbrev sidecar_outside : SidecarMain.Outside
sidecar_outside = record {
  getenv = env;
  parse_float = λ raw. none;
  otel_ok = true;
  tls_ok = true;
  client_ok = true;
  routes = λ path. none;
  pprof_ok = true;
}

abbrev sidecar_plan : SidecarMain.Plan
sidecar_plan = record {
  core_addr = "x";
  secret = "x";
  admin_secret = "x";
  mutual_tls = true;
  shedder = record { max = pos 500; ramp_start_pct = pos 100 };
  critical_routes = none;
  max_rps = fraction (pos 1000) 1;
  pprof = false;
  listen_addr = "x";
}

sidecar_started : SidecarMain.start sidecar_outside ≡ running sidecar_plan
unfolding SidecarMain.start env_vars_partially_set resolve_pprof_enabled resolve_max_inflight
    resolve_ramp_start_pct resolve_max_rps parse_int
sidecar_started = refl

start-bounds_example :
    (is_set sidecar_plan.secret ≡ true)
    × Positive64 sidecar_plan.shedder.max
    × Percent sidecar_plan.shedder.ramp_start_pct
    × (is_le_zero sidecar_plan.max_rps ≡ false)
    × (sidecar_plan.mutual_tls ≡ is_set "x")
start-bounds_example = start-bounds sidecar_outside sidecar_plan sidecar_started
