-- ===== src/Sidecar/Proxy/Denials.antt =====
-- What the negative cache makes of a denial by the core (services/sidecar/proxy/proxy.go).
use rate_cap.Prelude.{Bool, true, false, some, ◌≡◌, refl, ap, ◌∙◌, ◌==◌, arith}
use text.Mathlib.TextPositions.{eq_refl}
use rate_cap.Prelude.Int.{ℤ, ◌+ℤ◌, ◌≤ℤ◌}
use rate_cap.Proto.{ProtoAction, CheckRateLimitResponse}
use rate_cap.Sidecar.NegativeCache.{Denied, is_denied, mark_denied, after}
use rate_cap.Sidecar.NegativeCache.Laws.{Distinct, is_denied-mark_denied}
use rate_cap.Sidecar.Http.{HttpResponse, Core}
use rate_cap.Sidecar.Proxy.{
  Handler, CheckRequest, Surroundings, Sidecar, request, serve_http, forward, after_check,
  after_lookup, duration_of_ms,
}

module _ (c : Core) (h : Handler) (env : Surroundings) (r : CheckRequest) where
  -- A key that the cache holds is answered from it.
  abbrev Denies : HttpResponse × Sidecar c → Sidecar c → Type 0
  Denies p s = (p.0.status ≡ some 429) × (p.1.core ≡ s.core)

  after_lookup-Denies :
      (o : (Bool × ℤ) × Denied) (s : Sidecar c) → o.0.0 ≡ true → Denies (after_lookup h env r o s) s
  unfolding after_lookup
  after_lookup-Denies ((true, remaining), denied) s e = (refl, refl)
  after_lookup-Denies ((false, remaining), denied) s e = absurd cc

  serve_http-Denies :
      (s : Sidecar c)
      → h.caches ≡ true
      → (r.method == "GET") ≡ true
      → (r.key == "") ≡ false
      → (is_denied r.key env.lookup_time s.denied).0.0 ≡ true
      → Denies (serve_http h env r s) s
  unfolding serve_http
  serve_http-Denies s k m n d =
      ground (arith, after_lookup-Denies (is_denied r.key env.lookup_time s.denied) s d)

  -- The core's denial is stored, whatever the override says.
  forward_stores :
      (s : Sidecar c) (resp : CheckRateLimitResponse)
      → h.caches ≡ true
      → (c.check_rate_limit (request h r) s.core).0 ≡ some resp
      → resp.action ≡ ProtoAction.reject_429
      → (forward h env r s).1.denied
        ≡ mark_denied r.key
            (duration_of_ms resp.retry_after_ms)
            env.mark_time
            env.sweep_time
            s.denied
  unfolding forward after_check
  forward_stores s resp k e a = ground arith

-- With a cache that holds each key once, a request that the core sees and rejects with a 429
-- denies the next GET for the same key that looks it up after the cache was swept, and before the
-- time to retry has passed: that one is answered with a 429, and the core does not see it. This
-- holds under the shadow override too.
pub serve_http-denied :
    (c : Core) (h : Handler) (env later : Surroundings) (r next : CheckRequest) (s : Sidecar c)
    (resp : CheckRateLimitResponse)
    → h.caches ≡ true
    → (c.check_rate_limit (request h r) s.core).0 ≡ some resp
    → resp.action ≡ ProtoAction.reject_429
    → Distinct s.denied
    → (next.method == "GET") ≡ true
    → (next.key == "") ≡ false
    → next.key ≡ r.key
    → env.sweep_time ≤ℤ later.lookup_time
    → after later.lookup_time (env.mark_time +ℤ duration_of_ms resp.retry_after_ms) ≡ false
    → let s' = (forward h env r s).1 in
      ((serve_http h later next s').0.status ≡ some 429)
      × ((serve_http h later next s').1.core ≡ s'.core)
serve_http-denied c h env later r next s resp k e a d m n same after_sweep in_time =
    let s' = (forward h env r s).1 in
    let t = later.lookup_time in
    serve_http-Denies c h later next s' k m n (
      ap (λ x. (is_denied x t s'.denied).0.0) same
      ∙ ap (λ x. (is_denied r.key t x).0.0) (forward_stores c h env r s resp k e a)
      ∙ ap (λ x. x.0)
          (is_denied-mark_denied r.key r.key (duration_of_ms resp.retry_after_ms) env.mark_time
            env.sweep_time t s.denied d after_sweep)
      ∙ rw (eq_refl r.key, in_time) refl)
