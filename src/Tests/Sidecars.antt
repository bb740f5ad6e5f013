-- ===== src/Tests/Sidecars.antt =====
-- The sidecar, before cores with fixed answers.
use rate_cap.Prelude.{
  ℕ, suc, ◌+◌, ◌≤◌, Bool, true, false, List, [], ◌∷◌, none, some, ◌≡◌, ◌≢◌, refl, arith,
}
use rate_cap.Prelude.Int.{ℤ, pos, wrap64}
use rate_cap.Limiter.{sheddable}
use rate_cap.Proto.{ProtoAction, CheckRateLimitResponse}
use rate_cap.Sidecar.NegativeCache.{Denied, is_denied, find}
use rate_cap.Sidecar.Shedder.{Shedder}
use rate_cap.Sidecar.Shedder.Interleaving.{
  Goroutine, outside, run, count_inside, Passed, run-Counts,
}
use rate_cap.Sidecar.CriticalRoutes.{Event, file_event, timer_fired, Watcher, contains}
use rate_cap.Sidecar.Http.{Core, resolve_priority}
use rate_cap.Sidecar.Proxy.{Handler, CheckRequest, Surroundings, Sidecar, serve_http, forward}
use rate_cap.Sidecar.Proxy.Laws.{serve_http-inflight, critical_reaches_core, shadow_override_admits}
use rate_cap.Sidecar.Proxy.Denials.{serve_http-denied}

abbrev held_keys : Denied
held_keys = ("a", pos 500) ∷ ("k", pos 20) ∷ []

-- Three goroutines want one place.
abbrev one_place : Shedder
one_place = record { max = pos 1; ramp_start_pct = pos 100 }

abbrev idle : List Goroutine
idle = outside ∷ outside ∷ outside ∷ []

abbrev schedule : List (ℕ × ℕ)
schedule = (0, 0) ∷ (1, 0) ∷ (1, 0) ∷ (0, 0) ∷ (2, 0) ∷ (1, 0) ∷ []

run-Counts_example :
    let (gs, inflight) = run one_place schedule idle (pos 0) in
    (inflight ≡ pos (0 + count_inside gs)) × (0 + count_inside gs ≤ 1) × Passed one_place gs
run-Counts_example =
    run-Counts one_place 1 schedule idle (pos 0) refl (omega arith) (refl, omega arith, tt)

abbrev good : Watcher
good = record { routes = "GET /pay" ∷ []; timer_runs = false; returned = false }

abbrev events : List Event
events = file_event true ∷ timer_fired none ∷ file_event true ∷ timer_fired (some []) ∷ []

-- A core that rejects every check with a 429, and counts the calls.
abbrev denial : CheckRateLimitResponse
denial = record {
  action = ProtoAction.reject_429;
  retry_after_ms = pos 250;
  reservations = [];
  tier = "rate_limiter";
  limit = pos 10;
  remaining = pos 0;
}

abbrev denying : Core
denying = record {
  State = ℕ;
  check_rate_limit = λ req n. (some denial, suc n);
  release_concurrency = λ key token n. (true, suc n);
  refund_cost = λ key amount n. (true, suc n);
  set_dynamic_limit = λ tier value n.
      (some (record { tier = tier; previous_value = pos 5; new_value = value }), suc n);
}

abbrev handler : Bool → Handler
handler caches = record {
  default_priority = sheddable;
  shedder = one_place;
  caches = caches;
  critical_routes = some (some ("GET /pay" ∷ []));
}

abbrev at : ℤ → Bool → Surroundings
at t shadow_override = record {
  shadow_override = shadow_override;
  draw = 0;
  lookup_time = t;
  mark_time = t;
  sweep_time = t;
}

abbrev get : CheckRequest
get = record {
  method = "GET";
  key = "k";
  cost = "2";
  skip_reservations = "";
  route_header = "GET /pay";
  priority_header = "";
}

abbrev fresh : Sidecar denying
fresh = record { inflight = pos 1; denied = []; effects = []; core = 0 }

serve_http-inflight_example :
    (serve_http (handler true) (at (pos 5) false) get fresh).1.inflight ≡ pos 1
serve_http-inflight_example =
    serve_http-inflight denying (handler true) (at (pos 5) false) get fresh 1 refl (omega arith)

critical_reaches_core_example : (serve_http (handler true) (at (pos 5) false) get fresh).1.core ≡ 1
unfolding resolve_priority contains is_denied find
critical_reaches_core_example =
    critical_reaches_core denying (handler true) (at (pos 5) false) get fresh refl refl refl refl

shadow_override_admits_example :
    ((serve_http (handler true) (at (pos 5) true) get fresh).0.status ≢ some 429)
    × ((serve_http (handler true) (at (pos 5) true) get fresh).0.status ≢ some 503)
unfolding is_denied find
shadow_override_admits_example =
    shadow_override_admits denying (handler true) (at (pos 5) true) get fresh refl refl

-- Under the shadow override.
serve_http-denied_example :
    let s' = (forward (handler true) (at (pos 5) true) get fresh).1 in
    ((serve_http (handler true) (at (pos 90) true) get s').0.status ≡ some 429)
    × ((serve_http (handler true) (at (pos 90) true) get s').1.core ≡ s'.core)
unfolding wrap64
serve_http-denied_example =
    serve_http-denied denying (handler true) (at (pos 5) true) (at (pos 90) true) get get fresh
      denial refl refl refl tt refl refl refl (omega arith) refl
