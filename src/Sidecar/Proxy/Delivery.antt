-- ===== src/Sidecar/Proxy/Delivery.antt =====
-- A reply of /check is either that of the core or one without reservations
-- (services/sidecar/proxy/proxy.go).
use rate_cap.Prelude.{Bool, true, false, some, ◌≡◌, refl, inl, inr, Bool-cases, ◌==◌, arith}
use rate_cap.Prelude.Int.{ℤ}
use rate_cap.Limiter.{Priority, sheddable, critical}
use rate_cap.Proto.{CheckRateLimitResponse}
use rate_cap.Sidecar.NegativeCache.{Denied, is_denied}
use rate_cap.Sidecar.Shedder.{allow}
use rate_cap.Sidecar.Http.{HttpResponse, Core, coerce_if_shadow_overridden}
use rate_cap.Sidecar.Proxy.{
  Handler, CheckRequest, Surroundings, Sidecar, priority_of, serve_http, forward, after_allow,
  after_lookup, after_check, write_action, request, shed_or_forward, release_after,
}
use rate_cap.Sdk.{get_header}
use rate_cap.Sdk.Reservations.{Others}

-- A reply of the core reaches the client with its reservations, under the action that is shown.
pub forward-replied :
    (c : Core) (h : Handler) (env : Surroundings) (r : CheckRequest) (s : Sidecar c)
    (resp : CheckRateLimitResponse)
    → (c.check_rate_limit (request h r) s.core).0 ≡ some resp
    → (forward h env r s).0
      ≡ write_action (coerce_if_shadow_overridden resp.action env.shadow_override) resp
unfolding forward after_check
forward-replied c h env r s resp e = ground (arith, e)

-- What holds of every reply of the core and of every reply without reservations that leaves the
-- core alone holds of what the endpoint does.
module _ (c : Core) (h : Handler) (env : Surroundings) (r : CheckRequest) (k : c.State)
    (P : HttpResponse → c.State → Type 0)
    (asked : (s : Sidecar c) → s.core ≡ k → P (forward h env r s).0 (forward h env r s).1.core)
    (bare : (resp : HttpResponse) → Others 0 resp.headers → P resp k) where
  after_allow-delivers :
      (o : Bool × ℤ) (s : Sidecar c)
      → s.core ≡ k
      → P (after_allow h env r o s).0 (after_allow h env r o s).1.core
  unfolding after_allow release_after get_header
  after_allow-delivers (true, inflight) s e = asked _ e
  after_allow-delivers (false, inflight) s e = elim (Bool-cases env.shadow_override) [
    | inl o ↦ simp o (asked _ e)
    | inr o ↦ rw (o, e) (bare _ (λ j l. (refl, refl)))
  ]

  shed_or_forward-delivers :
      (p : Priority) (s : Sidecar c)
      → s.core ≡ k
      → P (shed_or_forward h env r p s).0 (shed_or_forward h env r p s).1.core
  unfolding shed_or_forward
  shed_or_forward-delivers critical s e = asked s e
  shed_or_forward-delivers sheddable s e =
      after_allow-delivers (allow h.shedder env.draw s.inflight) s e

  after_lookup-delivers :
      (o : (Bool × ℤ) × Denied) (s : Sidecar c)
      → s.core ≡ k
      → P (after_lookup h env r o s).0 (after_lookup h env r o s).1.core
  unfolding after_lookup get_header
  after_lookup-delivers ((true, remaining), denied) s e = rw e (bare _ (λ j l. (refl, refl)))
  after_lookup-delivers ((false, remaining), denied) s e =
      shed_or_forward-delivers (priority_of h r) (record s { denied = denied }) e

  pub serve_http-delivers :
      (s : Sidecar c) → s.core ≡ k → P (serve_http h env r s).0 (serve_http h env r s).1.core
  unfolding serve_http get_header
  serve_http-delivers s e = elim (Bool-cases (r.method == "GET")) [
    | inr m ↦ rw (m, e) (bare _ (λ j l. (refl, refl)))
    | inl m ↦ elim (Bool-cases (r.key == "")) [
      | inl n ↦ rw (m, n, e) (bare _ (λ j l. (refl, refl)))
      | inr n ↦ elim (Bool-cases h.caches) [
        | inl b ↦
            simp (m, n, b) (after_lookup-delivers (is_denied r.key env.lookup_time s.denied) s e)
        | inr b ↦ simp (m, n, b) (shed_or_forward-delivers (priority_of h r) s e)
      ]
    ]
  ]
