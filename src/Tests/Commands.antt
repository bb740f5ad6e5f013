-- ===== src/Tests/Commands.antt =====
-- The commands, and what the core counts.
use rate_cap.Prelude.{
  String, ℕ, [], ◌∷◌, Option, none, some, ◌≡◌, ◌≢◌, ◌⊎◌, inl, inr, ◌==◌, if◌then◌else◌, refl,
}
use rate_cap.Prelude.Int.{ℤ, pos}
use rate_cap.Limiter.Concurrency.Ledger.{ledger_backend}
use rate_cap.Server.{Server, set_dynamic_limit}
use rate_cap.Sdk.Transport.{core_of}
use rate_cap.Cli.Root.{run}
use rate_cap.Sidecar.RateLimit.{new, allow, refill, sub_time}
use rate_cap.Cli.Admin.{SetLimitFlags, Surroundings, set_limit}
use rate_cap.Cli.Admin.Endpoint.{Json, post_to, Limited}
use rate_cap.Cli.Admin.Limits.{set_limit-run}
use rate_cap.Metrics.{
  record_config_version, Counters, CallInfo, GaugeVec, GaugeLaws, Version, tls_info,
  classify_transport, serve_call,
}
use rate_cap.Metrics.Calls.{serve_call_counts}
use rate_cap.Metrics.Versions.{after_all, series-after_all}
use rate_cap.Tests.Returns.{tiers, replies, ctx, mac}

-- The rate of Tier 1 is set to 7.
abbrev json : Json
json = record {
  decode = λ body. some (record { tier = "rate_limiter"; value = pos 7 });
  encode = λ resp. "{}";
  error_text = λ code. "error";
}

abbrev env : Surroundings
env = record {
  env_secret = "s3";
  marshal = λ tier value. inl "{tier value}";
  request_error = λ url. none;
  out = λ line. none;
}

abbrev flags : SetLimitFlags
flags = record {
  sidecar_addr = "http://localhost:8080";
  admin_secret = "";
  tier = "rate_limiter";
  value = pos 7;
}

abbrev core : Server (ledger_backend replies)
core = record { tiers = tiers; store = record { calls = 0; held = [] } }

abbrev limited : Limited (Server (ledger_backend replies))
limited = record { server = core; limiter = new 10 1 (pos 0) }

set_limit-run_example :
    let (o, s') =
      set_limit
        (post_to (core_of (ledger_backend replies) ctx mac "s") "s3" json (pos 7) (pos 8))
        env
        flags
        limited in
    ((run o).0 ≡ 0)
    × (s'.server ≡ (set_dynamic_limit (ledger_backend replies) "rate_limiter" (pos 7) core).1)
unfolding allow new refill sub_time set_dynamic_limit
set_limit-run_example =
    set_limit-run (ledger_backend replies) ctx mac "s" "s3" json env flags (pos 7) (pos 8) limited
      ("{tier value}", refl, refl) (λ url. refl) (λ line. refl)

-- A call by TLS with the secret, which succeeds.
abbrev call : CallInfo
call = record {
  full_method = "/ratecap.v1.RatecapService/CheckRateLimit";
  peer = tls_info 1;
  metadata = some ("s3" ∷ []);
}

abbrev counters : Counters
counters = record { grpc_requests_total = []; connection_security_total = [] }

abbrev ok_text : ℕ → String
ok_text n = "OK"

abbrev handler : ℕ → ℕ × ℕ
handler s = (5, s)

serve_call_counts_example :
    let p = serve_call "s3" ok_text call handler (0, counters) in
    ((call.metadata ≡ some ("s3" ∷ []))
      × ((p.0 ≡ inl 5)
          × (p.1 ≡ 0)
          × (p.2.grpc_requests_total ≡ ("CheckRateLimit", "OK") ∷ [])
          × (p.2.connection_security_total ≡ classify_transport call.peer ∷ [])))
    ⊎ ((call.metadata ≢ some ("s3" ∷ [])) × ((e : String) × (p ≡ (inr e, 0, counters))))
serve_call_counts_example =
    serve_call_counts "s3" ok_text call handler 0 counters "/ratecap.v1.RatecapService"
      "CheckRateLimit" refl search

-- A vector of gauges that is a function of the labels.
abbrev gauges : GaugeVec
gauges = record {
  State = String → Option ℤ;
  series = λ s k. s k;
  delete_label_values = λ h s k. if h == k then none else s k;
  set = λ h v s k. if h == k then some v else s k;
}

gauge_laws : GaugeLaws gauges
gauge_laws = record { series-delete = λ h k s. refl; series-set = λ h k v s. refl }

abbrev unset : Version gauges
unset = record { current_config_hash = ""; config_version_info = λ k. none }

series-after_all_example :
    (after_all gauges ("a1" ∷ "b2" ∷ []) unset).config_version_info "b2" ≡ some (pos 1)
unfolding record_config_version
series-after_all_example =
    series-after_all gauges gauge_laws "a1" ("b2" ∷ []) unset "b2" (refl, (refl, tt)) (λ k. refl)
