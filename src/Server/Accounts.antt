-- ===== src/Server/Accounts.antt =====
-- The slots that a reply of CheckRateLimit lists (services/core/grpcserver/server.go).
use mathlib.Core.List.{Perm}
use rate_cap.Prelude.{
  false, List, [], ◌++◌, Option, none, some, ◌≡◌, refl, ap, subst, inl, inr, Bool-cases, arith,
}
use rate_cap.Prelude.Int.{pos, leb_ℤ}
use rate_cap.Limiter.{Error, Context, Decision, Checked, returned, panicked, TokenReservation}
use rate_cap.Limiter.Pipeline.{new_pipeline, check}
use rate_cap.Limiter.Pipeline.Accounts.{check-Accounted}
use rate_cap.Limiter.Concurrency.Ledger.{Answers, Ledger, ledger_backend}
use rate_cap.Proto.{CheckRateLimitRequest, CheckRateLimitResponse}
use rate_cap.Server.{Server, Rpc, reply, to_request, check_rate_limit, respond}

reservations_of_reply : Rpc CheckRateLimitResponse → List TokenReservation
reservations_of_reply (reply resp) = resp.reservations
reservations_of_reply (Rpc.status code m) = []
reservations_of_reply Rpc.crash = []

-- A reply lists the reservations of the decision.
respond-accounted :
    (p : Checked × Ledger) (base : List TokenReservation) (resp : CheckRateLimitResponse)
    → ((d : Decision) (err : Option Error)
        → p.0 ≡ returned d err
        → Perm p.1.held (d.reservations ++ base))
    → respond p.0 ≡ reply resp
    → Perm p.1.held (resp.reservations ++ base)
unfolding respond reservations_of_reply
respond-accounted (returned d none, l) base resp k e =
    subst (λ rs. Perm l.held (rs ++ base)) (ap reservations_of_reply e) (k d none refl)
respond-accounted (returned d (some m), l) base resp k e = absurd (ground (arith, e))
respond-accounted (panicked, l) base resp k e = absurd (ground (arith, e))

module _ (replies : Answers) (ctx : Context) (req : CheckRateLimitRequest)
    (s : Server (ledger_backend replies)) where
  -- The slots held after a check are those held before and those that the reply lists.
  pub check_rate_limit-accounted :
      (resp : CheckRateLimitResponse)
      → s.tiers.concurrency_limiter.shadow_mode ≡ false
      → s.tiers.fleet_shedder.shadow_mode ≡ false
      → (check_rate_limit (ledger_backend replies) ctx req s).0 ≡ reply resp
      → Perm
          (check_rate_limit (ledger_backend replies) ctx req s).1.store.held
          (resp.reservations ++ s.store.held)
  unfolding check_rate_limit
  check_rate_limit-accounted resp live2 live3 e = elim (Bool-cases (leb_ℤ req.cost (pos 0))) [
    | inl c ↦ absurd (ground (arith, c, e))
    | inr c ↦ rw c (
        respond-accounted
          (check (new_pipeline (ledger_backend replies) s.tiers) ctx (to_request req) s.store)
          s.store.held resp
          (λ d err. check-Accounted replies s.tiers ctx (to_request req) s.store d err live2 live3)
          (ground (arith, c, e)))
  ]
