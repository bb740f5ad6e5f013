-- ===== src/Tests/Returns.antt =====
-- An Acquire and the Release of its ticket, with a slot of Tier 2 and one of Tier 3.
use mathlib.Core.List.{Perm}
use rate_cap.Prelude.{
  ◌*◌, arith, ℕ, String, true, false, List, [], ◌∷◌, none, some, ◌≡◌, ◌==◌, inl, refl,
}
use rate_cap.Prelude.Int.{ℤ, pos, wrap64}
use rate_cap.Limiter.{sheddable, deadline, Context, TokenReservation}
use rate_cap.Limiter.TokenBucket
use rate_cap.Limiter.Concurrency
use rate_cap.Limiter.Fleet
use rate_cap.Limiter.Pipeline
use rate_cap.Limiter.Pipeline.{Tiers}
use rate_cap.Limiter.Concurrency.Ledger.{Answers, ledger_backend}
use rate_cap.Proto.{ProtoAction, CheckRateLimitResponse}
use rate_cap.Server.{check_rate_limit, to_proto_action}
use rate_cap.Store.Token.{sign_token}
use rate_cap.Store.Token.Signing.{verify_token-sign_token}
use rate_cap.Sidecar.Shedder.{new_shedder}
use rate_cap.Sidecar.Proxy.{Handler, Surroundings, Sidecar, request, resolve_cost}
use rate_cap.Prelude.Itoa.{itoa, digit, format_digits}
use rate_cap.SampleApp.{App, next_count, fleet_key, fleet_request, fleet_demo}
use rate_cap.SampleApp.Returns.{fleet_demo-Perm}
use rate_cap.Sdk.{Ticket}
use rate_cap.Sdk.Requests.{
  CheckOption, with_route, acquire_request, read_check, get_value, set_value, apply_to_request,
  apply_check_options,
}
use rate_cap.Sdk.Client.{call_acquire, call_release}
use rate_cap.Sdk.Transport.{core_of, send, Front, Open}
use rate_cap.Sidecar.RateLimit.{new}
use rate_cap.Sdk.Returns.{Returnable, call_release-call_acquire}

-- A MAC that is the same for every text, and a store that always has room.
abbrev pub mac : String → String → String
mac signing_key message = "m"

abbrev pub replies : Answers
replies = record {
  bucket =
      λ n key. record { allowed = true; retry_after_ms = pos 0; remaining = pos 0; err = none };
  slot = λ n key cap. record { allowed = true; token = "u.m"; err = none };
}

abbrev pub ctx : Context
ctx = record { polls = 3; ending = deadline }

abbrev pub tiers : Tiers
tiers = record {
  rate_limiter = record { rate = pos 5; burst = pos 10; shadow_mode = false };
  concurrency_limiter = record {
    cap = pos 1;
    max_duration_ms = pos 1000;
    shadow_mode = false;
    queueing_enabled = false;
    max_backlog = pos 2;
    max_queue_wait_ms = pos 50;
    poll_interval_ms = pos 10;
  };
  fleet_shedder = record {
    cap = pos 30;
    reserved_critical_pct = pos 20;
    max_duration_ms = pos 1000;
    shadow_mode = false;
  };
}

abbrev handler : Handler
handler = record {
  default_priority = sheddable;
  shedder = new_shedder (pos 5);
  caches = true;
  critical_routes = none;
}

abbrev env : Surroundings
env = record {
  shadow_override = false;
  draw = 0;
  lookup_time = pos 1;
  mark_time = pos 2;
  sweep_time = pos 3;
}

-- Someone else holds a slot already.
abbrev other : List TokenReservation
other = record { key = "j"; token = "v.m" } ∷ []

abbrev sidecar : Sidecar (core_of (ledger_backend replies) ctx mac "s")
sidecar = record {
  inflight = pos 0;
  denied = [];
  effects = [];
  core = record { tiers = tiers; store = record { calls = 0; held = other } };
}

-- Ten requests for a second, and a request for each millisecond.
abbrev front : Front (core_of (ledger_backend replies) ctx mac "s")
front = record { sidecar = sidecar; limiter = new 10 1 (pos 0); requests = 0 }

abbrev ticks : ℕ → ℤ × ℤ
ticks n = (pos (1000000 * n), pos (1000000 * n))

has_room : Open 3 front
unfolding new
has_room = record { has_tokens = omega arith; within_burst = omega arith }

abbrev options : List CheckOption
options = with_route "/pay" ∷ []

abbrev granted : CheckRateLimitResponse
granted = record {
  action = ProtoAction.allow;
  retry_after_ms = pos 0;
  reservations = record { key = "k"; token = "u.m" } ∷ record { key = "fleet"; token = "u.m" } ∷ [];
  tier = "fleet_shedder";
  limit = pos 0;
  remaining = pos 0;
}

grants :
    ((core_of (ledger_backend replies) ctx mac "s").check_rate_limit
      (request handler (read_check (acquire_request "k" options)))
      sidecar.core).0
    ≡ some granted
unfolding check_rate_limit resolve_cost read_check get_value acquire_request apply_to_request
    apply_check_options with_route set_value Pipeline.check TokenBucket.check Concurrency.check
    Concurrency.first_try Fleet.check to_proto_action
grants = refl

returnable :
    (k : String)
    → (k == "") ≡ false
    → Returnable replies ctx mac "s" handler env ticks (record { key = k; token = "u.m" })
unfolding sign_token
returnable k e = (e, verify_token-sign_token mac "u" "s" (refl, tt))

call_release-call_acquire_example :
    let (t, s') =
      call_acquire
        (send (core_of (ledger_backend replies) ctx mac "s") handler env ticks)
        "k"
        options
        front in
    (ticket : Ticket) × (t ≡ inl ticket)
    × (let (errors, s'') =
          call_release
            (send (core_of (ledger_backend replies) ctx mac "s") handler env ticks)
            ticket.reservations
            s' in
        (errors ≡ []) × Perm s''.sidecar.core.store.held other)
call_release-call_acquire_example =
    call_release-call_acquire replies ctx mac "s" handler env ticks "k" options front granted refl
      refl grants (returnable "k" refl, (returnable "fleet" refl, tt)) has_room

-- The demo's first request, of high priority.
abbrev demo : App (Front (core_of (ledger_backend replies) ctx mac "s"))
demo = record { fleet_demo_counter = pos 0; outside = front }

abbrev demo_granted : CheckRateLimitResponse
demo_granted = record granted {
  reservations =
      record { key = "fleet-demo-1"; token = "u.m" } ∷ record { key = "fleet"; token = "u.m" } ∷ [];
}

demo_grants :
    ((core_of (ledger_backend replies) ctx mac "s").check_rate_limit
      (request handler (
        read_check
          (fleet_request (fleet_key (next_count demo.fleet_demo_counter)) "critical" "/pay")))
      demo.outside.sidecar.core).0
    ≡ some demo_granted
unfolding check_rate_limit resolve_cost read_check get_value fleet_request set_value Pipeline.check
    TokenBucket.check Concurrency.check Concurrency.first_try Fleet.check to_proto_action itoa digit
    wrap64 format_digits
demo_grants = refl

fleet_demo-Perm_example :
    Perm
      (fleet_demo
        (send (core_of (ledger_backend replies) ctx mac "s") handler env ticks)
        "critical"
        "/pay"
        demo).1.outside.sidecar.core.store.held
      other
fleet_demo-Perm_example =
    fleet_demo-Perm replies ctx mac "s" handler env ticks "critical" "/pay" demo demo_granted refl
      refl demo_grants (returnable "fleet-demo-1" refl, (returnable "fleet" refl, tt)) has_room
