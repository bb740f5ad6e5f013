-- ===== src/Server/Checks.antt =====
-- What CheckRateLimit and ReleaseConcurrency let through (services/core/grpcserver/server.go).
use rate_cap.Prelude.{
  ℕ, ◌<◌, ◌*◌, String, none, some, ◌≡◌, ◌≢◌, ◌⊎◌, refl, sym, subst, inl, inr, Bool-cases, arith,
}
use rate_cap.Prelude.Int.{pos, two_63}
use rate_cap.Limiter.{Checked, Context, returned, panicked, Backend}
use rate_cap.Limiter.Pipeline.{new_pipeline, check}
use rate_cap.Config.{Config, validate, build_tiers}
use rate_cap.Config.Reload.{valid-ne-panicked}
use rate_cap.Proto.{CheckRateLimitRequest}
use rate_cap.Store.Token.{sign_token, verify_token}
use rate_cap.Store.Token.Signing.{verify_token_sound}
use rate_cap.Server.{
  crash, status, permission_denied, Server, check_rate_limit, respond, release_concurrency,
  to_request,
}

respond-ne-crash : (r : Checked) → r ≢ panicked → respond r ≢ crash
unfolding respond
respond-ne-crash (returned d none) h = λ e. cc
respond-ne-crash (returned d (some m)) h = λ e. cc
respond-ne-crash panicked h = λ e. h refl

module _ (b : Backend) where
  -- A core whose limiters come from a valid configuration, with a poll interval of less than
  -- 2 ^ 63 nanoseconds, is not taken down by any request.
  pub check_rate_limit-ne-crash :
      (c : Config) (p : ℕ) (ctx : Context) (req : CheckRateLimitRequest) (s : Server b)
      → validate c ≡ none
      → c.concurrency_limiter.poll_interval_ms ≡ pos p
      → p * 1000000 < two_63
      → s.tiers ≡ build_tiers c
      → (check_rate_limit b ctx req s).0 ≢ crash
  unfolding check_rate_limit
  check_rate_limit-ne-crash c p ctx req s v e f t =
      let safe = respond-ne-crash (check (new_pipeline b s.tiers) ctx (to_request req) s.store).0 (
        subst (λ x. (check (new_pipeline b x) ctx (to_request req) s.store).0 ≢ panicked) (sym t)
          (valid-ne-panicked b c p ctx (to_request req) s.store v e f)) in
      ground arith

  -- A release either changes nothing and is refused, or carries a token that the core's key signs.
  pub release_concurrency_signed :
      (mac : String → String → String) (signing_key key token : String) (s : Server b)
      → (release_concurrency b mac signing_key key token s
          ≡ (status permission_denied "invalid concurrency token", s))
        ⊎ ((u : String) × (token ≡ sign_token mac u signing_key))
  unfolding release_concurrency
  release_concurrency_signed mac k key token s = elim (Bool-cases (verify_token mac token k)) [
    | inl v ↦ inr (verify_token_sound mac token k v)
    | inr v ↦ inl (ground arith)
  ]
