-- ===== src/Config/Reload.antt =====
-- What a reload leaves in the limiters (services/core/main.go), and what a configuration that
-- `Validate` accepts makes sure of in the pipeline.
use rate_cap.Prelude.{
  ℕ, ◌<◌, ◌*◌, ◌≤◌, false, none, ◌≡◌, ◌≢◌, ◌⊎◌, refl, ap, subst, ◌∙◌, inl, inr, Option-cases, arith,
}
use rate_cap.Prelude.Int.{pos, ◌≤ℤ◌, leb_ℤ, two_63, wrap64_fits}
use rate_cap.Limiter.{Request, Context, panicked, Backend}
use rate_cap.Limiter.TokenBucket
use rate_cap.Limiter.Concurrency
use rate_cap.Limiter.Concurrency.{milliseconds}
use rate_cap.Limiter.Fleet
use rate_cap.Limiter.Pipeline.{Tiers, new_pipeline, check}
use rate_cap.Limiter.Pipeline.Accounts.{check-ne-panicked}
use rate_cap.Config.{
  Config, validate, build_tiers, reconfigure_tiers, Loaded, failed, loaded, on_validated, on_change,
}
use rate_cap.Config.Validity.{IsValid, validate_iff}

config_or : Config → Loaded → Config
config_or c (failed e) = c
config_or c (loaded c') = c'

-- A reload is all or nothing: if a configuration is loaded and valid, the limiters become those that
-- a start with it builds, with the label of a success; if there is none, or it is not valid, they
-- stay as they are, with the label of a failure.
pub on_change_lem :
    (l : Loaded) (t : Tiers)
    → ((c : Config) × (l ≡ loaded c) × IsValid c × (on_change l t ≡ (build_tiers c, "success")))
      ⊎ (((c : Config) → l ≡ loaded c → ¬ IsValid c) × (on_change l t ≡ (t, "failure")))
unfolding on_change on_validated reconfigure_tiers build_tiers TokenBucket.reconfigure
    Concurrency.reconfigure Fleet.reconfigure config_or
on_change_lem (failed e) t = inr ((λ c q v. absurd cc), refl)
on_change_lem (loaded c) t = elim (Option-cases (validate c)) [
  | inl v ↦ inl (c, refl, (validate_iff c).0 v, rw v refl)
  | inr (e, v) ↦ inr (
    (λ c' q valid.
        let same : validate c ≡ none =
          ap (λ x. validate (config_or c x)) q ∙ (validate_iff c').1 valid in
        absurd (ground (arith, v, same))),
    rw v refl,
  )
]

positive_ms : (p : ℕ) → 1 ≤ p → p * 1000000 < two_63 → leb_ℤ (milliseconds (pos p)) (pos 0) ≡ false
positive_ms p l h = ap (λ x. leb_ℤ x (pos 0)) (wrap64_fits (p * 1000000) h) ∙ ground arith

-- With limiters built from a valid configuration no request makes the pipeline panic, if the poll
-- interval is less than 2 ^ 63 nanoseconds. `Validate` has no upper bound on it.
pub valid-ne-panicked :
    (b : Backend) (c : Config) (p : ℕ) (ctx : Context) (req : Request) (s : b.State)
    → validate c ≡ none
    → c.concurrency_limiter.poll_interval_ms ≡ pos p
    → p * 1000000 < two_63
    → (check (new_pipeline b (build_tiers c)) ctx req s).0 ≢ panicked
unfolding build_tiers
valid-ne-panicked b c p ctx req s v e h = check-ne-panicked b (build_tiers c) ctx req s (λ q.
    let valid = (validate_iff c).0 v in
    let ticks = (valid.6 q).1 in
    ap (λ x. leb_ℤ (milliseconds x) (pos 0)) e
    ∙ positive_ms p (omega (arith, subst (λ x. pos 1 ≤ℤ x) e ticks)) h)
