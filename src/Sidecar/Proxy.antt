-- ===== src/Sidecar/Proxy.antt =====
-- services/sidecar/proxy/proxy.go: `Handler.ServeHTTP`, the endpoint /check, for one request. The
-- spans of the tracer and the latencies that are measured are left out.
mod Reply
pub mod Laws
pub mod Delivery
pub mod Denials
use rate_cap.Prelude.{
  ℕ, String, Bool, true, false, not, ◌&&◌, List, [], ◌∷◌, ◌++◌, Option, none, some, if◌then◌else◌,
  ◌==◌,
}
use rate_cap.Prelude.Int.{ℤ, pos, ◌*ℤ◌, leb_ℤ, quot, wrap64}
use rate_cap.Limiter.{Priority, sheddable, critical}
use rate_cap.Proto.{ProtoAction, ProtoPriority, CheckRateLimitRequest, CheckRateLimitResponse}
use rate_cap.Sidecar.NegativeCache.{Denied, mark_denied, is_denied}
use rate_cap.Sidecar.Shedder.{Shedder, allow, release}
use rate_cap.Sidecar.CriticalRoutes.{Set, contains}
use rate_cap.Sidecar.Http.{
  named, text, number, HttpResponse, http_error, parse_int32, Effect, decision, would_reject,
  in_flight, logged, upstream_error, coerce_if_shadow_overridden, resolve_priority, action_label,
  priority_label, Core,
}
pub use Reply.{reset_seconds, bucket_headers}
unfoldable pub use Reply.{reservation_headers, write_action}

-- An amount that does not parse, or is not positive, counts as 1.
unfoldable pub amount_or_1 : Option ℤ → ℤ
amount_or_1 none = pos 1
amount_or_1 (some parsed) = if leb_ℤ parsed (pos 0) then pos 1 else parsed

unfoldable pub resolve_cost : String → ℤ
unfolding amount_or_1
resolve_cost raw = if raw == "" then pos 1 else amount_or_1 (parse_int32 raw)

pub record Handler : Type 0 where
  pub default_priority : Priority
  pub shedder : Shedder
  -- `negativeCache != nil`
  pub caches : Bool
  pub critical_routes : Option Set

-- What ServeHTTP reads of a request: its method, the parameters of the query, and two headers.
pub record CheckRequest : Type 0 where
  pub method : String
  pub key : String
  pub cost : String
  pub skip_reservations : String
  pub route_header : String
  pub priority_header : String

-- What it reads of its surroundings: the shadow override, the draw of Tier 4, and the clock of the
-- cache when it looks a key up, stores a denial and sweeps.
pub record Surroundings : Type 0 where
  pub shadow_override : Bool
  pub draw : ℕ
  pub lookup_time : ℤ
  pub mark_time : ℤ
  pub sweep_time : ℤ

abbrev pub proto_priority : Priority → ProtoPriority
proto_priority critical = ProtoPriority.critical
proto_priority sheddable = ProtoPriority.sheddable

abbrev pub is_429 : ProtoAction → Bool
is_429 ProtoAction.reject_429 = true
is_429 _ = false

-- `action != realAction` after the coercion
abbrev pub is_coerced : ProtoAction → Bool → Bool
is_coerced ProtoAction.reject_429 shadow_override = shadow_override
is_coerced ProtoAction.reject_503 shadow_override = shadow_override
is_coerced _ shadow_override = false

-- `time.Duration(ms) * time.Millisecond`, and `Milliseconds()` back
abbrev pub duration_of_ms : ℤ → ℤ
duration_of_ms ms = wrap64 (ms *ℤ pos 1000000)

abbrev pub ms_of_duration : ℤ → ℤ
ms_of_duration d = quot d 1000000

module _ (c : Core) where
  -- The counter of Tier 4, the negative cache, what was recorded, newest first, and the core.
  pub record Sidecar : Type 0 where
    pub inflight : ℤ
    pub denied : Denied
    pub effects : List Effect
    pub core : c.State

module _ (h : Handler) (r : CheckRequest) where
  abbrev pub priority_of : Priority
  priority_of =
      resolve_priority r.priority_header (contains h.critical_routes r.route_header)
        h.default_priority

  abbrev pub label : String
  label = priority_label priority_of

  abbrev pub request : CheckRateLimitRequest
  request = record {
    key = r.key;
    cost = resolve_cost r.cost;
    skip_reservations = r.skip_reservations == "true";
    priority = proto_priority priority_of;
  }

module _ {c : Core} (h : Handler) (env : Surroundings) (r : CheckRequest) where
  abbrev note : List Effect → Sidecar c → Sidecar c
  note es s = record s { effects = es ++ s.effects }

  abbrev remember : CheckRateLimitResponse → Sidecar c → Sidecar c
  remember resp s =
      if h.caches && is_429 resp.action
      then record s {
        denied =
            mark_denied r.key (duration_of_ms resp.retry_after_ms) env.mark_time env.sweep_time
              s.denied;
      }
      else s

  -- What follows the RPC.
  after_check : Option CheckRateLimitResponse → Sidecar c → HttpResponse × Sidecar c
  after_check none s = (http_error 500, note (upstream_error "check_rate_limit" ∷ []) s)
  after_check (some resp) s =
      let real = action_label resp.action in
      let coerced =
        if is_coerced resp.action env.shadow_override then would_reject resp.tier ∷ [] else [] in
      (
        write_action (coerce_if_shadow_overridden resp.action env.shadow_override) resp,
        remember resp (
            note (coerced ++ logged resp.tier r.key real (label h r) ∷ decision resp.tier real ∷ [])
              s),
      )

  unfoldable pub forward : Sidecar c → HttpResponse × Sidecar c
  unfolding after_check
  forward s =
      let (reply, core) = c.check_rate_limit (request h r) s.core in
      after_check reply (record s { core = core })

  -- The deferred call of `Release`.
  release_after : HttpResponse × Sidecar c → HttpResponse × Sidecar c
  release_after (resp, s) =
      let inflight = release s.inflight in
      (resp, note (in_flight inflight ∷ []) (record s { inflight = inflight }))

  -- What follows `Allow` of Tier 4, for its result and the counter after it.
  after_allow : Bool × ℤ → Sidecar c → HttpResponse × Sidecar c
  unfolding release_after
  after_allow (true, inflight) s =
      release_after (forward (note (in_flight inflight ∷ []) (record s { inflight = inflight })))
  after_allow (false, inflight) s =
      let log = logged "worker_shedder" r.key "reject_503" (label h r) in
      let shed = decision "worker_shedder" "reject_503" in
      if env.shadow_override
      then forward (
          note (log ∷ in_flight inflight ∷ would_reject "worker_shedder" ∷ shed ∷ [])
            (record s { inflight = inflight }))
      else (
        record { headers = (named "X-RateCap-Shed-Tier", text "4") ∷ []; status = some 503 },
        note (log ∷ in_flight inflight ∷ shed ∷ []) (record s { inflight = inflight }),
      )

  shed_or_forward : Priority → Sidecar c → HttpResponse × Sidecar c
  unfolding after_allow
  shed_or_forward critical s = forward s
  shed_or_forward sheddable s = after_allow (allow h.shedder env.draw s.inflight) s

  -- What follows the lookup in the negative cache, for its result and the cache after it.
  after_lookup : (Bool × ℤ) × Denied → Sidecar c → HttpResponse × Sidecar c
  unfolding shed_or_forward
  after_lookup ((true, remaining), denied) s = (
    record {
      headers =
          (named "Retry-After-Ms", number (ms_of_duration remaining))
          ∷ (named "RateLimit-Reset", number (reset_seconds (ms_of_duration remaining)))
          ∷ [];
      status = some 429;
    },
    note
        (logged "negative_cache" r.key "reject_429" (label h r)
          ∷ decision "negative_cache" "reject_429"
          ∷ [])
        (record s { denied = denied }),
  )
  after_lookup ((false, remaining), denied) s =
      shed_or_forward (priority_of h r) (record s { denied = denied })

  unfoldable pub serve_http : Sidecar c → HttpResponse × Sidecar c
  unfolding after_lookup shed_or_forward
  serve_http s =
      if not (r.method == "GET")
      then (http_error 405, s)
      else (if r.key == ""
          then (http_error 400, s)
          else (if h.caches
              then after_lookup (is_denied r.key env.lookup_time s.denied) s
              else shed_or_forward (priority_of h r) s))
