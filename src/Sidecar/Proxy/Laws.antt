-- ===== src/Sidecar/Proxy/Laws.antt =====
-- What one request to /check does to Tier 4 and to the core (services/sidecar/proxy/proxy.go).
use rate_cap.Prelude.{
  ℕ, suc, Bool, ◌<◌, true, false, some, if◌then◌else◌, ◌≡◌, ◌≢◌, refl, ap, ◌∙◌, inl, inr,
  Bool-cases, Option-cases, ◌==◌, arith,
}
use rate_cap.Prelude.Int.{ℤ, pos, ◌+ℤ◌, wrap64, wrap64_fits, two_63}
use rate_cap.Limiter.{Priority, sheddable, critical}
use rate_cap.Proto.{ProtoAction, CheckRateLimitResponse}
use rate_cap.Sidecar.NegativeCache.{Denied, is_denied}
use rate_cap.Sidecar.Shedder.{allow, release, admits}
use rate_cap.Sidecar.Shedder.Interleaving.{release-suc}
use rate_cap.Sidecar.Http.{HttpResponse, Core, coerce_if_shadow_overridden}
use rate_cap.Sidecar.Proxy.{
  Handler, CheckRequest, Surroundings, Sidecar, priority_of, request, serve_http, forward,
  after_check, after_allow, after_lookup, shed_or_forward, release_after, write_action,
}

module _ (c : Core) (h : Handler) (env : Surroundings) (r : CheckRequest) where
  forward-inflight : (s : Sidecar c) → (forward h env r s).1.inflight ≡ s.inflight
  unfolding forward after_check
  forward-inflight s = elim (Option-cases (c.check_rate_limit (request h r) s.core).0) [
    | inl e ↦ ground arith
    | inr (resp, e) ↦ ground arith
  ]

  -- After an admission, and after a refusal.
  after_allow-inflight :
      (allowed : Bool) (s : Sidecar c) (n : ℕ)
      → suc n < two_63
      → (after_allow h env r (allowed, if allowed then pos (suc n) else pos n) s).1.inflight ≡ pos n
  unfolding after_allow release_after
  after_allow-inflight true s n b =
      ap release (forward-inflight _) ∙ release-suc n (omega (arith, b))
  after_allow-inflight false s n b = elim (Bool-cases env.shadow_override) [
    | inl o ↦ simp o (forward-inflight _)
    | inr o ↦ rw o refl
  ]

  shed_or_forward-inflight :
      (p : Priority) (s : Sidecar c) (n : ℕ)
      → s.inflight ≡ pos n
      → suc n < two_63
      → (shed_or_forward h env r p s).1.inflight ≡ pos n
  unfolding shed_or_forward allow
  shed_or_forward-inflight critical s n e b = forward-inflight s ∙ e
  shed_or_forward-inflight sheddable s n e b =
      let one : wrap64 (s.inflight +ℤ pos 1) ≡ pos (suc n) =
        ap (λ x. wrap64 (x +ℤ pos 1)) e
        ∙ ap wrap64 (ap pos (omega arith))
        ∙ wrap64_fits (suc n) b in
      elim (Bool-cases (admits h.shedder env.draw s.inflight)) [
        | inl a ↦ rw (a, one) (after_allow-inflight true s n b)
        | inr a ↦ rw (a, e) (after_allow-inflight false s n b)
      ]

  after_lookup-inflight :
      (o : (Bool × ℤ) × Denied) (s : Sidecar c) (n : ℕ)
      → s.inflight ≡ pos n
      → suc n < two_63
      → (after_lookup h env r o s).1.inflight ≡ pos n
  unfolding after_lookup
  after_lookup-inflight ((true, remaining), denied) s n e b = e
  after_lookup-inflight ((false, remaining), denied) s n e b =
      shed_or_forward-inflight (priority_of h r) (record s { denied = denied }) n e b

  -- Whatever the core answers, and on every path, a request that has been served leaves the counter
  -- of Tier 4 as it found it, as long as the counter is not the greatest int64.
  pub serve_http-inflight :
      (s : Sidecar c) (n : ℕ)
      → s.inflight ≡ pos n
      → suc n < two_63
      → (serve_http h env r s).1.inflight ≡ pos n
  unfolding serve_http
  serve_http-inflight s n e b = ground (
    arith,
    after_lookup-inflight (is_denied r.key env.lookup_time s.denied) s n e b,
    shed_or_forward-inflight (priority_of h r) s n e b,
  )

  -- A request that is passed on runs the check of the core.
  pub forward-core :
      (s : Sidecar c) → (forward h env r s).1.core ≡ (c.check_rate_limit (request h r) s.core).1
  unfolding forward after_check
  forward-core s = elim (Option-cases (c.check_rate_limit (request h r) s.core).0) [
    | inl e ↦ ground arith
    | inr (resp, e) ↦ ground arith
  ]

  critical-core :
      (p : Priority) (s : Sidecar c)
      → p ≡ critical
      → (shed_or_forward h env r p s).1.core ≡ (c.check_rate_limit (request h r) s.core).1
  unfolding shed_or_forward
  critical-core critical s e = forward-core s
  critical-core sheddable s e = absurd cc

  after_lookup-core :
      (o : (Bool × ℤ) × Denied) (s : Sidecar c)
      → priority_of h r ≡ critical
      → o.0.0 ≡ false
      → (after_lookup h env r o s).1.core ≡ (c.check_rate_limit (request h r) s.core).1
  unfolding after_lookup
  after_lookup-core ((true, remaining), denied) s p d = absurd cc
  after_lookup-core ((false, remaining), denied) s p d =
      critical-core (priority_of h r) (record s { denied = denied }) p

  -- A critical request, a GET with a key, is never shed by Tier 4: unless the negative cache holds
  -- a denial for its key, the core sees it, whatever the load of the sidecar is.
  pub critical_reaches_core :
      (s : Sidecar c)
      → (r.method == "GET") ≡ true
      → (r.key == "") ≡ false
      → priority_of h r ≡ critical
      → (is_denied r.key env.lookup_time s.denied).0.0 ≡ false
      → (serve_http h env r s).1.core ≡ (c.check_rate_limit (request h r) s.core).1
  unfolding serve_http
  critical_reaches_core s m k p d = ground (
    arith,
    after_lookup-core (is_denied r.key env.lookup_time s.denied) s p d,
    critical-core (priority_of h r) s p,
  )

  write_action-coerced :
      (a : ProtoAction) (resp : CheckRateLimitResponse)
      → ((write_action (coerce_if_shadow_overridden a true) resp).status ≢ some 429)
        × ((write_action (coerce_if_shadow_overridden a true) resp).status ≢ some 503)
  unfolding write_action coerce_if_shadow_overridden
  write_action-coerced ProtoAction.allow resp = ground arith
  write_action-coerced ProtoAction.reject_429 resp = ground arith
  write_action-coerced ProtoAction.reject_503 resp = ground arith
  write_action-coerced ProtoAction.shadow_log resp = ground arith
  write_action-coerced ProtoAction.queue resp = ground arith
  write_action-coerced (ProtoAction.unrecognized n) resp = ground arith

  -- Neither a 429 nor a 503.
  abbrev Admitted : HttpResponse → Type 0
  Admitted resp = (resp.status ≢ some 429) × (resp.status ≢ some 503)

  forward-Admitted : (s : Sidecar c) → env.shadow_override ≡ true → Admitted (forward h env r s).0
  unfolding forward after_check
  forward-Admitted s o = elim (Option-cases (c.check_rate_limit (request h r) s.core).0) [
    | inl e ↦ rw e (ground arith)
    | inr (resp, e) ↦ rw (e, o) (write_action-coerced resp.action resp)
  ]

  after_allow-Admitted :
      (a : Bool × ℤ) (s : Sidecar c)
      → env.shadow_override ≡ true
      → Admitted (after_allow h env r a s).0
  unfolding after_allow release_after
  after_allow-Admitted (true, inflight) s o = forward-Admitted _ o
  after_allow-Admitted (false, inflight) s o = simp o (forward-Admitted _ o)

  shed_or_forward-Admitted :
      (p : Priority) (s : Sidecar c)
      → env.shadow_override ≡ true
      → Admitted (shed_or_forward h env r p s).0
  unfolding shed_or_forward
  shed_or_forward-Admitted critical s o = forward-Admitted s o
  shed_or_forward-Admitted sheddable s o =
      after_allow-Admitted (allow h.shedder env.draw s.inflight) s o

  after_lookup-Admitted :
      (o : (Bool × ℤ) × Denied) (s : Sidecar c)
      → env.shadow_override ≡ true
      → o.0.0 ≡ false
      → Admitted (after_lookup h env r o s).0
  unfolding after_lookup
  after_lookup-Admitted ((true, remaining), denied) s o d = absurd cc
  after_lookup-Admitted ((false, remaining), denied) s o d =
      shed_or_forward-Admitted (priority_of h r) (record s { denied = denied }) o

  -- With the shadow override on, the handler of /check rejects no request for whose key the negative
  -- cache holds no denial: neither Tier 4 nor an answer of the core leads to a 429 or a 503.
  pub shadow_override_admits :
      (s : Sidecar c)
      → env.shadow_override ≡ true
      → (is_denied r.key env.lookup_time s.denied).0.0 ≡ false
      → Admitted (serve_http h env r s).0
  unfolding serve_http
  shadow_override_admits s o n = elim (Bool-cases (r.method == "GET")) [
    | inr m ↦ rw (m, serve_http) (ground arith)
    | inl m ↦ elim (Bool-cases (r.key == "")) [
      | inl k ↦ rw (m, k) (ground arith)
      | inr k ↦ elim (Bool-cases h.caches) [
        | inl q ↦
            simp (m, k, q) (after_lookup-Admitted (is_denied r.key env.lookup_time s.denied) s o n)
        | inr q ↦ simp (m, k, q) (shed_or_forward-Admitted (priority_of h r) s o)
      ]
    ]
  ]
