-- ===== src/Sidecar/RateLimit/Laws.antt =====
-- What the middleware of the sidecar does with a request (services/sidecar/ratelimit).
use rate_cap.Prelude.{
  ℕ, suc, ◌+◌, ◌-◌, ◌*◌, ◌≤◌, ◌<◌, Bool, true, false, ◌≡◌, refl, leb, Bool-cases, inl, inr, arith,
}
use rate_cap.Prelude.Int.{ℤ, two_63}
use native.Mathlib.Nat.{mul-le-mul_right}
use rate_cap.Sidecar.Http.{HttpResponse}
use rate_cap.Sidecar.RateLimit.Refill.{
  refill-ge, refill-le-burst, allow-le, span, refill-span, allow_paid, refill_keeps,
}
use rate_cap.Sidecar.RateLimit.{
  Limiter, second, middleware, too_many_requests, after_take, refill, allow, take, retry_after,
  wait_of, retry_seconds,
}

-- Enough time has passed for a token.
allow-refilled :
    (t : ℤ) (l : Limiter) (wait : ℕ)
    → l.one ≤ l.burst
    → l.one - l.tokens < (wait + 1) * l.rate
    → wait + 1 ≤ span l.updated_at t
    → span l.updated_at t < two_63
    → (allow t l).0 ≡ true
allow-refilled t l wait fits deficit h small =
    let tokens = refill-span t l (omega arith) small in
    let paid = mul-le-mul_right l.rate h in
    allow_paid t l (omega (arith, tokens, paid, refill_keeps t l))

wait_of_lem : (l : Limiter) → 0 < l.rate → l.one - l.tokens < (wait_of l + 1) * l.rate
unfolding wait_of
wait_of_lem l h = elim (Bool-cases (leb l.one l.tokens)) [
  | inl e ↦ rw e (ground arith)
  | inr e ↦ rw e (grind arith)
]

retry_seconds-lt : (wait : ℕ) → wait + 1 ≤ retry_seconds wait * second
unfolding retry_seconds
retry_seconds-lt wait = omega arith

allow_keeps :
    (now : ℤ) (l : Limiter)
    → ((allow now l).1.burst ≡ l.burst)
      × ((allow now l).1.one ≡ l.one)
      × ((allow now l).1.rate ≡ l.rate)
unfolding allow take
allow_keeps now l = ground (arith, refill_keeps now l)

-- A limiter with a token for one request and for k more.
pub allow_takes :
    (now : ℤ) (l : Limiter) (k : ℕ)
    → suc k * l.one ≤ l.tokens
    → l.tokens ≤ l.burst
    → let (ok, l') = allow now l in (ok ≡ true) × (k * l'.one ≤ l'.tokens) × (l'.tokens ≤ l'.burst)
allow_takes now l k h w =
    let kept = refill_keeps now l in
    let grown = refill-ge now l w in
    let within = refill-le-burst now l w in
    let enough : l.one ≤ l.tokens = omega (arith, h) in
    let paid = allow_paid now l (omega (arith, kept.1, grown, enough)) in
    let left = allow-le now l in
    let debit : (allow now l).1.tokens + l.one ≡ (refill now l).tokens =
      ground (arith, paid, left.0) in
    (
      paid,
      rw (left.2) (omega (arith, debit, grown, h)),
      omega (arith, debit, within, (allow_keeps now l).0),
    )

module _ {S : Type 0} (next : S → HttpResponse × S) where
  after_take-refused :
      (later : ℤ) (p : Bool × Limiter) (s : S)
      → p.0 ≡ false
      → after_take next later p s
        ≡ (too_many_requests (retry_after later p.1).0, refill later p.1, s)
  unfolding after_take retry_after
  after_take-refused later (true, l) s h = absurd (cc)
  after_take-refused later (false, l) s h = refl

  after_take-allowed :
      (later : ℤ) (p : Bool × Limiter) (s : S)
      → p.0 ≡ true
      → after_take next later p s ≡ ((next s).0, p.1, (next s).1)
  unfolding after_take
  after_take-allowed later (true, l) s h = refl
  after_take-allowed later (false, l) s h = absurd (cc)

  -- The two ways of the middleware.
  pub middleware-refused :
      (now later : ℤ) (l : Limiter) (s : S)
      → (allow now l).0 ≡ false
      → let l' = (allow now l).1 in
        middleware next now later l s
        ≡ (too_many_requests (retry_after later l').0, refill later l', s)
  unfolding middleware
  middleware-refused now later l s h = after_take-refused later (allow now l) s h

  pub middleware-allowed :
      (now later : ℤ) (l : Limiter) (s : S)
      → (allow now l).0 ≡ true
      → middleware next now later l s ≡ ((next s).0, (allow now l).1, (next s).1)
  unfolding middleware
  middleware-allowed now later l s h = after_take-allowed later (allow now l) s h

  -- A request that is refused does not reach the handler, and is told how many whole seconds to
  -- wait: after those, if no other request comes in between, the next one is let through, as long as
  -- the bucket can hold a token and the time from the last refill fits the type of a duration.
  pub retry_seconds-enough :
      (now later t : ℤ) (l : Limiter) (s : S)
      → 0 < l.rate
      → l.one ≤ l.burst
      → (allow now l).0 ≡ false
      → let (resp, l', s') = middleware next now later l s in
        (wait : ℕ) × (resp ≡ too_many_requests wait)
        × (s' ≡ s)
        × (retry_seconds wait * second ≤ span l'.updated_at t
            → span l'.updated_at t < two_63
            → (allow t l').0 ≡ true)
  unfolding retry_after
  retry_seconds-enough now later t l s pos_rate fits refused =
      let l1 = (allow now l).1 in
      let kept = allow_keeps now l in
      let kept' = refill_keeps later l1 in
      rw (middleware-refused now later l s refused) (
        wait_of (refill later l1),
        refl,
        refl,
        λ h small.
            allow-refilled t (refill later l1) (wait_of (refill later l1))
              (omega (arith, kept, kept'))
              (wait_of_lem (refill later l1) (omega (arith, kept, kept')))
              (omega (arith, h, retry_seconds-lt (wait_of (refill later l1)))) small,
      )
