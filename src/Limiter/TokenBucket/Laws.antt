-- ===== src/Limiter/TokenBucket/Laws.antt =====
-- What Tier 1 decides on every reply of the store (services/core/limiter/tokenbucket.go).
use rate_cap.Prelude.{◌≡◌, some, refl, ◌↔◌, inl, inr, Option-cases, false, [], none, arith}
use rate_cap.Limiter.{
  allow, no_decision, reject_429, Decision, Error, Request, returned, BucketReply, Backend,
}
use rate_cap.Limiter.TokenBucket.{TokenBucketLimiter, check, decide, settle}

module _ (b : Backend) where
  -- What the store answers to the one call that Tier 1 makes.
  abbrev pub answer : TokenBucketLimiter → Request → b.State → BucketReply
  answer l req s = (b.check_and_decrement req.key l.rate l.burst req.cost s).0

  -- Tier 1 never fails or panics and holds no slot, and it rejects a request exactly when the
  -- store answered, the answer was no, and the limiter is not in shadow mode.
  pub check_rejects_iff :
      (l : TokenBucketLimiter) (req : Request) (s : b.State)
      → (d : Decision) × ((check b l req s).0 ≡ returned d none)
        × (d.reservations ≡ [])
        × ((d.action ≡ reject_429) ↔ (
            ((answer l req s).err ≡ none)
            × ((answer l req s).allowed ≡ false)
            × (l.shadow_mode ≡ false)))
  unfolding check
  check_rejects_iff l req s = elim (Option-cases (answer l req s).err) [
    | inl e ↦ rw (e, check) (decide l (answer l req s), refl, ground arith, ground arith)
    | inr (m, e) ↦
        rw (e, check)
          (record no_decision { action = allow; tier = "rate_limiter" }, refl, refl, ground arith)
  ]

  -- An error of the store lets the request pass.
  pub check_fails_open :
      (l : TokenBucketLimiter) (req : Request) (s : b.State) (e : Error)
      → (answer l req s).err ≡ some e
      → (d : Decision) × ((check b l req s).0 ≡ returned d none) × (d.action ≡ allow)
  unfolding check settle
  check_fails_open l req s e h = (record no_decision { tier = "rate_limiter" }, ground arith, refl)
