-- ===== src/Process/SidecarMain.antt =====
-- services/sidecar/main.go: the numbers that the sidecar reads from its environment, and its start up
-- to the server.
pub mod Bounds
use rate_cap.Prelude.{
  ℕ, String, Bool, true, false, not, ◌||◌, ◌^◌, Option, none, some, is_some, if◌then◌else◌, ◌==◌,
}
use rate_cap.Prelude.Int.{ℤ, pos, ltb_ℤ, leb_ℤ}
use rate_cap.Sidecar.Http.{parse_int}
use rate_cap.Sidecar.Shedder.{Shedder, new_shedder_with_ramp}
use rate_cap.Sidecar.CriticalRoutes.{Routes, Set}
use rate_cap.Process.Certificates.{TlsConfig}
use rate_cap.Process.Environment.{
  Started, fatal, running, ◌>>=◌, ◌>>◌, require, env_or, is_set, env_vars_partially_set,
  resolve_pprof_enabled,
}

positive_or : ℤ → Option ℤ → ℤ
positive_or default_val none = default_val
positive_or default_val (some parsed) = if leb_ℤ parsed (pos 0) then default_val else parsed

unfoldable pub resolve_max_inflight : String → ℤ → ℤ
unfolding positive_or
resolve_max_inflight env_val default_val =
    if env_val == "" then default_val else positive_or default_val (parse_int (2 ^ 63) env_val)

percent_or : ℤ → Option ℤ → ℤ
percent_or default_val none = default_val
percent_or default_val (some parsed) =
    if leb_ℤ parsed (pos 0) || ltb_ℤ (pos 100) parsed then default_val else parsed

-- `strconv.Atoi` on a 64-bit machine
unfoldable pub resolve_ramp_start_pct : String → ℤ → ℤ
unfolding percent_or
resolve_ramp_start_pct env_val default_val =
    if env_val == "" then default_val else percent_or default_val (parse_int (2 ^ 63) env_val)

-- A float64 that `ParseFloat` gives: a fraction, or one of the three that are none.
pub data Float64 : Type 0 where
  fraction : ℤ → ℕ → Float64
  infinite negative_infinite not_a_number : Float64

-- `parsed <= 0`
abbrev pub is_le_zero : Float64 → Bool
is_le_zero (fraction n d) = leb_ℤ n (pos 0)
is_le_zero infinite = false
is_le_zero negative_infinite = true
is_le_zero not_a_number = false

max_rps_or : Float64 → Option Float64 → Float64
max_rps_or default_val none = default_val
max_rps_or default_val (some parsed) = if is_le_zero parsed then default_val else parsed

-- For the function `strconv.ParseFloat`.
unfoldable pub resolve_max_rps : (String → Option Float64) → String → Float64 → Float64
unfolding max_rps_or
resolve_max_rps parse_float env_val default_val =
    if env_val == "" then default_val else max_rps_or default_val (parse_float env_val)

pub record Plan : Type 0 where
  pub core_addr : String
  pub secret : String
  pub admin_secret : String
  pub mutual_tls : Bool
  pub shedder : Shedder
  pub critical_routes : Option Set
  pub max_rps : Float64
  pub pprof : Bool
  pub listen_addr : String

-- What the start meets outside: the results of the calls that can fail.
pub record Outside : Type 0 where
  pub getenv : String → String
  pub parse_float : String → Option Float64
  pub otel_ok : Bool
  pub tls_ok : Bool
  pub client_ok : Bool
  pub routes : String → Option Routes
  pub pprof_ok : Bool

module _ (o : Outside) where
  -- `criticalroutes.Watch`, only where a path is given.
  watched : Option Routes → Started (Option Set)
  watched none = fatal "failed to load critical routes"
  watched (some routes) = running (some (some routes))

  load_routes : String → Started (Option Set)
  unfolding watched
  load_routes path = if is_set path then watched (o.routes path) else running none

  unfoldable pub start : Started Plan
  unfolding load_routes
  start = do
    require o.otel_ok "failed to initialize OpenTelemetry"
    let secret = o.getenv "RATECAP_SHARED_SECRET"
    require (is_set secret) "RATECAP_SHARED_SECRET must be set"
    let cert_path = o.getenv "RATECAP_TLS_CERT_PATH"
    require
        (not (
          env_vars_partially_set cert_path (o.getenv "RATECAP_TLS_KEY_PATH")
            (o.getenv "RATECAP_TLS_CA_PATH")))
        "the TLS paths must be set together or not at all"
    require (not (is_set cert_path) || o.tls_ok) "failed to load TLS config"
    require o.client_ok "failed to connect to ratecap-core"
    routes ← load_routes (o.getenv "RATECAP_CRITICAL_ROUTES_PATH")
    let pprof = resolve_pprof_enabled (o.getenv "RATECAP_PPROF_ENABLED")
    require (not pprof || o.pprof_ok) "failed to start pprof server"
    running (record {
      core_addr = env_or (o.getenv "RATECAP_CORE_ADDR") "localhost:9090";
      secret = secret;
      admin_secret = o.getenv "RATECAP_ADMIN_SECRET";
      mutual_tls = is_set cert_path;
      shedder =
          new_shedder_with_ramp
            (resolve_max_inflight (o.getenv "RATECAP_MAX_INFLIGHT_REQUESTS") (pos 500))
            (resolve_ramp_start_pct (o.getenv "RATECAP_SHED_RAMP_START_PCT") (pos 100));
      critical_routes = routes;
      max_rps =
          resolve_max_rps o.parse_float (o.getenv "RATECAP_SIDECAR_MAX_RPS")
            (fraction (pos 1000) 1);
      pprof = pprof;
      listen_addr = env_or (o.getenv "RATECAP_SIDECAR_ADDR") ":8080";
    })
