-- ===== src/Limiter/Pipeline.antt =====
-- services/core/limiter/pipeline.go: the tiers in order, up to the first that does not let the
-- request pass.
pub mod Laws
pub mod Accounts
use rate_cap.Prelude.{
  String, Bool, true, false, ◌||◌, List, [], ◌∷◌, ◌++◌, Option, none, if◌then◌else◌, is_some, ◌==◌,
}
use rate_cap.Limiter.{
  Action, allow, queue, TokenReservation, Decision, no_decision, Request, Context, Checked,
  returned, panicked, Backend,
}
use rate_cap.Limiter.TokenBucket
use rate_cap.Limiter.TokenBucket.{TokenBucketLimiter}
use rate_cap.Limiter.Concurrency
use rate_cap.Limiter.Concurrency.{ConcurrencyLimiter}
use rate_cap.Limiter.Fleet
use rate_cap.Limiter.Fleet.{FleetShedder}

-- A value of the interface `Limiter`, over a store of state `S`.
abbrev pub Tier : Type 0 → Type 0
Tier S = Context → Request → S → Checked × S

-- `d.Action != ALLOW && d.Action != QUEUE`
abbrev pub stops : Action → Bool
stops allow = false
stops queue = false
stops _ = true

abbrev pub is_queue : Action → Bool
is_queue queue = true
is_queue _ = false

module _ {S : Type 0} where
  -- One round of the loop, from what the tier did; `next` is the rest of the loop.
  after_tier :
      (List TokenReservation → String → Action → S → Checked × S)
      → List TokenReservation
      → String
      → Action
      → Checked × S
      → Checked × S
  after_tier next reserved last_tier final (panicked, s) = (panicked, s)
  after_tier next reserved last_tier final (returned d err, s) =
      let reserved' = reserved ++ d.reservations in
      if is_some err || stops d.action
      then (returned (record d { reservations = reserved' }) err, s)
      else next reserved' (if d.tier == "" then last_tier else d.tier)
          (if is_queue d.action then queue else final) s

  -- The loop, with its variables `reserved`, `lastTier` and `finalAction`.
  unfoldable pub check_from :
      List (Tier S) → List TokenReservation → String → Action → Context → Request → S → Checked × S
  unfolding after_tier
  check_from [] reserved last_tier final ctx req s = (
    returned (record no_decision { action = final; reservations = reserved; tier = last_tier })
        none,
    s,
  )
  check_from (tier ∷ tiers) reserved last_tier final ctx req s =
      after_tier (λ reserved' t a s'. check_from tiers reserved' t a ctx req s') reserved last_tier
        final (tier ctx req s)

  unfoldable pub check : List (Tier S) → Context → Request → S → Checked × S
  unfolding check_from
  check tiers = check_from tiers [] "" allow

-- The three tiers as `main` of services/core builds them.
pub record Tiers : Type 0 where
  pub rate_limiter : TokenBucketLimiter
  pub concurrency_limiter : ConcurrencyLimiter
  pub fleet_shedder : FleetShedder

abbrev pub new_pipeline : (b : Backend) → Tiers → List (Tier b.State)
new_pipeline b t =
    (λ ctx req s. TokenBucket.check b t.rate_limiter req s)
    ∷ (λ ctx req s. Concurrency.check b t.concurrency_limiter ctx req s)
    ∷ (λ ctx req s. Fleet.check b t.fleet_shedder req s)
    ∷ []
