-- ===== src/Tests/Traffic.antt =====
-- The routes of the sidecar under load.
use rate_cap.Prelude.{ℕ, ◌+◌, ◌*◌, ◌≤◌, ◌<◌, true, List, [], ◌∷◌, ◌≡◌, refl, arith}
use rate_cap.Prelude.Int.{pos, two_63}
use rate_cap.Sidecar.Http.{HttpResponse, http_error}
use rate_cap.Sidecar.RateLimit.{
  Limiter, allow, refill, sub_time, middleware, too_many_requests, retry_seconds, second,
}
use rate_cap.Sidecar.RateLimit.Laws.{retry_seconds-enough}
use rate_cap.Sidecar.RateLimit.Refill.{span}
use rate_cap.Sidecar.Mux.{Route}
use rate_cap.Sidecar.Mux.Flood.{Arrival}

abbrev answer : Route → ℕ → HttpResponse
answer r n = http_error 200

abbrev arrivals : List Arrival
arrivals =
    ("/check", pos 10, pos 11)
    ∷ ("/metrics", pos 5, pos 5)
    ∷ ("/nowhere", pos 7, pos 7)
    ∷ ("/check", pos 12, pos 13)
    ∷ []

-- Two requests for a second.
abbrev two_rps : Limiter
two_rps = record {
  one = 1000000000;
  rate = 2;
  burst = 2000000000;
  tokens = 2000000000;
  updated_at = pos 0;
}

abbrev empty : Limiter
empty = record two_rps { tokens = 0 }

abbrev next : ℕ → HttpResponse × ℕ
next n = (http_error 200, n + 1)

retry_seconds-enough_example :
    let (resp, l', s') = middleware next (pos 0) (pos 4) empty 3 in
    (wait : ℕ) × (resp ≡ too_many_requests wait)
    × (s' ≡ 3)
    × (retry_seconds wait * second ≤ span l'.updated_at (pos 1000000010)
        → span l'.updated_at (pos 1000000010) < two_63
        → (allow (pos 1000000010) l').0 ≡ true)
unfolding allow refill sub_time
retry_seconds-enough_example =
    retry_seconds-enough next (pos 0) (pos 4) (pos 1000000010) empty 3 (omega arith) (omega arith)
      refl
