-- ===== src/Sidecar/Proxy/Reply.antt =====
-- services/sidecar/proxy/proxy.go: what ServeHTTP writes of the reply of the core.
use rate_cap.Prelude.{ℕ, suc, List, [], ◌∷◌, ◌++◌, some, none, if◌then◌else◌, ◌==◌}
use rate_cap.Prelude.Int.{ℤ, pos, ◌+ℤ◌, quot, wrap64}
use rate_cap.Limiter.{TokenReservation}
use rate_cap.Proto.{ProtoAction, CheckRateLimitResponse}
use rate_cap.Sidecar.Http.{HeaderName, named, indexed, HeaderValue, text, number, HttpResponse}

-- `(ms + 999) / 1000`
abbrev pub reset_seconds : ℤ → ℤ
reset_seconds ms = quot (wrap64 (ms +ℤ pos 999)) 1000

unfoldable pub reservation_headers : ℕ → List TokenReservation → List (HeaderName × HeaderValue)
reservation_headers i [] = []
reservation_headers i (r ∷ rs) =
    (indexed "Concurrency-Token-" i, text r.token)
    ∷ (indexed "Concurrency-Key-" i, text r.key)
    ∷ reservation_headers (suc i) rs

abbrev pub bucket_headers : CheckRateLimitResponse → List (HeaderName × HeaderValue)
bucket_headers resp =
    if resp.tier == "rate_limiter"
    then (named "RateLimit-Limit", number resp.limit)
      ∷ (named "RateLimit-Remaining", number resp.remaining)
      ∷ []
    else []

-- The last `switch`, on the action after the coercion; other actions write nothing.
unfoldable pub write_action : ProtoAction → CheckRateLimitResponse → HttpResponse
write_action ProtoAction.reject_429 resp = record {
  headers =
      reservation_headers 0 resp.reservations
      ++ (named "Retry-After-Ms", number resp.retry_after_ms)
        ∷ (named "RateLimit-Reset", number (reset_seconds resp.retry_after_ms))
        ∷ bucket_headers resp;
  status = some 429;
}
write_action ProtoAction.reject_503 resp = record {
  headers = reservation_headers 0 resp.reservations ++ (named "X-RateCap-Shed-Tier", text "3") ∷ [];
  status = some 503;
}
write_action (ProtoAction.unrecognized n) resp = record {
  headers = reservation_headers 0 resp.reservations;
  status = none;
}
write_action _ resp = record {
  headers = reservation_headers 0 resp.reservations;
  status = some 200;
}
