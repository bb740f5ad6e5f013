-- ===== src/Sidecar/RateLimit.antt =====
-- services/sidecar/ratelimit: the bucket that all routes of the sidecar draw from, and its
-- middleware. The float64 values are exact fractions: a token is `one` units, and the rate is in
-- units for a nanosecond. Times are in nanoseconds.
pub mod Laws
pub mod Refill
use Prim.Native.Nat.{min}
use rate_cap.Prelude.{
  ℕ, ◌+◌, ◌-◌, ◌*◌, ◌/◌, ◌^◌, Bool, true, false, List, [], ◌∷◌, some, ltb, leb, if◌then◌else◌,
}
use rate_cap.Prelude.Int.{ℤ, pos, pos_part, ◌-ℤ◌, leb_ℤ, min_ℤ, max_ℤ, negsuc, two_63}
use rate_cap.Sidecar.Http.{named, number, HttpResponse}

pub record Limiter : Type 0 where
  pub one : ℕ
  pub rate : ℕ
  pub burst : ℕ
  pub tokens : ℕ
  pub updated_at : ℤ

abbrev pub second : ℕ
second = 1000000000

-- `New(rate / denominator)` at the time `now`: the burst is the rate of one second.
unfoldable pub new : ℕ → ℕ → ℤ → Limiter
new rate denominator now = record {
  one = denominator * second;
  rate = rate;
  burst = rate * second;
  tokens = rate * second;
  updated_at = now;
}

-- `now.Sub(t)`, which saturates.
unfoldable pub sub_time : ℤ → ℤ → ℤ
sub_time now t = max_ℤ (negsuc (two_63 - 1)) (min_ℤ (pos (two_63 - 1)) (now -ℤ t))

unfoldable pub refill : ℤ → Limiter → Limiter
refill now l =
    let elapsed = sub_time now l.updated_at in
    if leb_ℤ elapsed (pos 0)
    then l
    else record l { tokens = min l.burst (l.tokens + pos_part elapsed * l.rate); updated_at = now }

take : Limiter → Bool × Limiter
take l = if ltb l.tokens l.one then (false, l) else (true, record l { tokens = l.tokens - l.one })

unfoldable pub allow : ℤ → Limiter → Bool × Limiter
unfolding take
allow now l = take (refill now l)

wait_of : Limiter → ℕ
wait_of l = if leb l.one l.tokens then 0 else (l.one - l.tokens) / l.rate

-- The wait in nanoseconds. With a rate of 0 the quotient of the source is no number; the rate at
-- the start is positive.
unfoldable pub retry_after : ℤ → Limiter → ℕ × Limiter
unfolding wait_of
retry_after now l = (wait_of (refill now l), refill now l)

-- `int(RetryAfter().Seconds() + 1)`
unfoldable pub retry_seconds : ℕ → ℕ
retry_seconds wait = wait / second + 1

unfoldable pub too_many_requests : ℕ → HttpResponse
unfolding retry_seconds
too_many_requests wait = record {
  headers = (named "Retry-After", number (pos (retry_seconds wait))) ∷ [];
  status = some 429;
}

module _ {S : Type 0} (next : S → HttpResponse × S) where
  -- For the clock at the two reads.
  after_take : ℤ → Bool × Limiter → S → HttpResponse × Limiter × S
  after_take later (true, l) s = let (resp, s') = next s in (resp, l, s')
  after_take later (false, l) s =
      let (wait, l') = retry_after later l in (too_many_requests wait, l', s)

  unfoldable pub middleware : ℤ → ℤ → Limiter → S → HttpResponse × Limiter × S
  unfolding after_take
  middleware now later l s = after_take later (allow now l) s
