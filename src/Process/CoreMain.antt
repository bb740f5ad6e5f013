-- ===== src/Process/CoreMain.antt =====
-- services/core/main.go: the start of the core, up to the listeners that it serves on, and the loop
-- that reports the health of Redis. The order of the checks is that of the source.
pub mod Listeners
use rate_cap.Prelude.{
  String, Bool, true, false, not, ◌&&◌, ◌||◌, List, [], ◌∷◌, Option, none, some, is_some,
  if◌then◌else◌, ◌==◌,
}
use rate_cap.Config.{Config, validate}
use rate_cap.Process.Certificates.{ClientAuth, require_and_verify, verify_if_given, TlsConfig, load}
use rate_cap.Process.Environment.{
  Started, fatal, running, ◌>>=◌, ◌>>◌, require, env_or, is_set, env_vars_partially_set,
  resolve_pprof_enabled, RedisTarget, new_redis_client,
}

unfoldable pub resolve_tls_mode : String → Started String
resolve_tls_mode raw =
    if raw == ""
    then running "off"
    else (if (raw == "off") || (raw == "permissive") || (raw == "strict")
        then running raw
        else fatal "RATECAP_TLS_MODE is invalid")

-- Plaintext, or TLS with a policy for the certificates of clients.
pub data Transport : Type 0 where
  plaintext : Transport
  tls : ClientAuth → Transport

-- A listener for the RPCs, with the secret of its interceptor.
pub record Endpoint : Type 0 where
  pub addr : String
  pub transport : Transport
  pub secret : String

pub record Plan : Type 0 where
  pub config : Config
  pub redis : RedisTarget
  pub signing_key : String
  pub endpoints : List Endpoint
  pub health_addr : String
  pub metrics_addr : String
  pub pprof : Bool

-- What the start meets outside: the results of the calls that can fail; the last four are what
-- `tlsconfig.Load` reads.
pub record Outside : Type 1 where
  pub getenv : String → String
  pub otel_ok : Bool
  pub config : Option Config
  pub config_watch_ok : Bool
  pub can_listen : String → Bool
  pub pprof_ok : Bool
  pub Cert : Type 0
  pub key_pair : Option Cert
  pub cert_watch_ok : Bool
  pub authorities : Option Bool

module _ (o : Outside) where
  load_config : Option Config → Started Config
  load_config none = fatal "failed to load config"
  load_config (some cfg) = if is_some (validate cfg) then fatal "invalid config" else running cfg

  load_tls : Option (TlsConfig o.Cert) → Started ClientAuth
  load_tls none = fatal "failed to load TLS config"
  load_tls (some conf) = running conf.client_auth

  -- The main listener, with `grpc.Creds` only where certificates are set and the mode is not
  -- permissive.
  main_transport : String → String → Started Transport
  unfolding load_tls
  main_transport cert_path mode =
      if is_set cert_path && not (mode == "permissive")
      then (do auth ← load_tls (load o.key_pair o.cert_watch_ok o.authorities); running (tls auth))
      else running plaintext

  -- The second listener of the permissive mode, which weakens the policy.
  permissive_endpoints : String → String → Started (List Endpoint)
  unfolding load_tls
  permissive_endpoints mode secret =
      let addr = env_or (o.getenv "RATECAP_GRPC_TLS_ADDR") ":9443" in
      if mode == "permissive"
      then (do
        require (o.can_listen addr) "failed to listen"
        auth ← load_tls (load o.key_pair o.cert_watch_ok o.authorities)
        running (record { addr = addr; transport = tls verify_if_given; secret = secret } ∷ []))
      else running []

  start_pprof : Bool → Started (Unit {0})
  start_pprof enabled = require (not enabled || o.pprof_ok) "failed to start pprof server"

  -- From the first listener on.
  serve : Config → String → String → String → String → Started Plan
  unfolding main_transport permissive_endpoints start_pprof
  serve cfg secret signing_key cert_path mode = do
    let addr = env_or (o.getenv "RATECAP_GRPC_ADDR") ":9090"
    require (o.can_listen addr) "failed to listen"
    transport ← main_transport cert_path mode
    more ← permissive_endpoints mode secret
    let health_addr = env_or (o.getenv "RATECAP_HEALTH_ADDR") ":9091"
    require (o.can_listen health_addr) "failed to listen"
    let pprof = resolve_pprof_enabled (o.getenv "RATECAP_PPROF_ENABLED")
    start_pprof pprof
    running (record {
      config = cfg;
      redis =
          new_redis_client (env_or (o.getenv "RATECAP_REDIS_ADDR") "localhost:6379")
            (o.getenv "RATECAP_REDIS_SENTINEL_ADDRS")
            (env_or (o.getenv "RATECAP_REDIS_SENTINEL_MASTER_NAME") "mymaster");
      signing_key = signing_key;
      endpoints = record { addr = addr; transport = transport; secret = secret } ∷ more;
      health_addr = health_addr;
      metrics_addr = env_or (o.getenv "RATECAP_METRICS_ADDR") ":9092";
      pprof = pprof;
    })

  -- `main`, up to its last call of `Serve`.
  unfoldable pub start : Started Plan
  unfolding load_config serve
  start = do
    require o.otel_ok "failed to initialize OpenTelemetry"
    cfg ← load_config o.config
    let secret = o.getenv "RATECAP_SHARED_SECRET"
    require (is_set secret) "RATECAP_SHARED_SECRET must be set"
    let signing_key = o.getenv "RATECAP_CONCURRENCY_SIGNING_KEY"
    require (is_set signing_key) "RATECAP_CONCURRENCY_SIGNING_KEY must be set"
    let cert_path = o.getenv "RATECAP_TLS_CERT_PATH"
    require
        (not (
          env_vars_partially_set cert_path (o.getenv "RATECAP_TLS_KEY_PATH")
            (o.getenv "RATECAP_TLS_CA_PATH")))
        "the TLS paths must be set together or not at all"
    mode ← resolve_tls_mode (o.getenv "RATECAP_TLS_MODE")
    require (not (((mode == "permissive") || (mode == "strict")) && not (is_set cert_path)))
        "RATECAP_TLS_MODE requires the TLS paths to be set"
    require o.config_watch_ok "failed to start config watcher"
    serve cfg secret signing_key cert_path mode

-- `runRedisHealthLoop`: the ticks, with whether the ping succeeds, up to the stop; what is set.
pub data HealthEvent : Type 0 where
  tick : Bool → HealthEvent
  stop : HealthEvent

pub data ServingStatus : Type 0 where
  serving not_serving : ServingStatus

unfoldable pub run_redis_health_loop : List HealthEvent → ServingStatus → ServingStatus
run_redis_health_loop [] s = s
run_redis_health_loop (stop ∷ es) s = s
run_redis_health_loop (tick ok ∷ es) s =
    run_redis_health_loop es (if ok then serving else not_serving)
