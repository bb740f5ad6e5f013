-- ===== src/Sidecar/Mux/Flood.antt =====
-- A flood of requests to any of the routes of the sidecar (services/sidecar/main.go).
use rate_cap.Prelude.{
  ℕ, suc, ◌+◌, ◌*◌, ◌≤◌, ◌<◌, String, List, [], ◌∷◌, ◌≡◌, refl, ◌∙◌, Option-cases, inl, inr, arith,
}
use rate_cap.Prelude.Int.{ℤ, ◌≤ℤ◌}
use rate_cap.Sidecar.Http.{HttpResponse}
use rate_cap.Sidecar.RateLimit.{Limiter, new, refill}
use rate_cap.Sidecar.RateLimit.Refill.{span, refill_keeps, refill-le-burst, allow_lean}
use rate_cap.Sidecar.RateLimit.Laws.{middleware-refused}
use rate_cap.Sidecar.Mux.{Route, route_of, top_mux}

-- A request: its path, and the clock where the limiter reads it.
abbrev pub Arrival : Type 0
Arrival = String × ℤ × ℤ

-- What a limiter can still let through until `end`, with the calls made, in units.
abbrev worth : ℤ → Limiter → ℕ → ℕ
worth end l calls = calls * l.one + l.tokens + span l.updated_at end * l.rate

-- Such a step lets through no more than it was worth.
record Spends (end : ℤ) (l l' : Limiter) (calls calls' : ℕ) : Type 0 where
  within : l'.updated_at ≤ℤ end
  spent : worth end l' calls' ≤ worth end l calls
  same_one : l'.one ≡ l.one
  same_rate : l'.rate ≡ l.rate

module _ (answer : Route → ℕ → HttpResponse) where
  -- Handlers that count their calls.
  abbrev pub counting : Route → ℕ → HttpResponse × ℕ
  counting r calls = (answer r calls, suc calls)

  -- The calls of handlers that a list of requests leads to.
  pub handled : List Arrival → Limiter → ℕ → ℕ
  handled [] l calls = calls
  handled ((path, now, later) ∷ rest) l calls =
      let (resp, l', calls') = top_mux counting path now later l calls in handled rest l' calls'

  top_mux_lean :
      (path : String) (now later : ℤ) (l : Limiter) (calls : ℕ)
      → l.tokens ≤ l.burst
      → l.burst < l.one
      → let p = top_mux counting path now later l calls in
        (p.2 ≡ calls) × (p.1.tokens ≤ p.1.burst) × (p.1.burst < p.1.one)
  unfolding top_mux
  top_mux_lean path now later l calls h k = elim (Option-cases (route_of path)) [
    | inl e ↦ rw e (refl, h, k)
    | inr (r, e) ↦ rw e (
        let lean = allow_lean now l h k in
        let keeps = refill_keeps now l in
        let l' = refill now l in
        let keeps' = refill_keeps later l' in
        let low : l'.tokens ≤ l'.burst = omega (arith, keeps, refill-le-burst now l h) in
        rw (middleware-refused (counting r) now later l calls (rw lean refl), lean)
          (
            refl,
            omega (arith, keeps', refill-le-burst later l' low),
            omega (arith, keeps, keeps', k),
          ))
  ]

  handled_lean :
      (arrivals : List Arrival) (l : Limiter) (calls : ℕ)
      → l.tokens ≤ l.burst
      → l.burst < l.one
      → handled arrivals l calls ≡ calls
  unfolding handled
  handled_lean [] l calls h k = refl
  handled_lean ((path, now, later) ∷ rest) l calls h k =
      let p = top_mux counting path now later l calls in
      let step = top_mux_lean path now later l calls h k in
      handled_lean rest p.1 p.2 step.1 step.2 ∙ step.0

  -- A limit of less than one request for a second shuts all routes: no request is ever handled.
  pub handled-new :
      (arrivals : List Arrival) (rate denominator : ℕ) (start : ℤ)
      → rate < denominator
      → handled arrivals (new rate denominator start) 0 ≡ 0
  handled-new arrivals rate denominator start h =
      handled_lean arrivals (new rate denominator start) 0 (unfold new in omega arith)
        (unfold new in omega (arith, h))
