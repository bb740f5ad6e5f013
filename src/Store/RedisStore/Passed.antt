-- ===== src/Store/RedisStore/Passed.antt =====
-- What the checks of Tier 1 over Redis let through for a key, and what they do not hear
-- (services/core/limiter/tokenbucket.go, services/core/store/redis.go).
use rate_cap.Prelude.{ℕ, suc, ◌+◌, String, List, [], ◌∷◌, ◌≡◌, ◌==◌, if◌then◌else◌}
use rate_cap.Prelude.Int.{pos, pos_part}
use rate_cap.Limiter.{
  Action, allow, reject_429, reject_503, shadow_log, queue, Request, Checked, returned, panicked,
}
use rate_cap.Limiter.TokenBucket.{TokenBucketLimiter, check}
use rate_cap.Store.Redis.{Redis}
use rate_cap.Store.RedisStore.{Link, up, refused, lost, World, Session, redis_store}

-- What a check lets through of a cost: the sidecar answers a SHADOW_LOG and a QUEUE with a 200.
abbrev pub allowed_cost : Action → ℕ → ℕ
allowed_cost allow c = c
allowed_cost reject_429 c = 0
allowed_cost reject_503 c = 0
allowed_cost shadow_log c = c
allowed_cost queue c = c

abbrev pub let_through : Checked → ℕ → ℕ
let_through (returned d e) c = allowed_cost d.action c
let_through panicked c = 0

-- What a call over a link does not hear from Redis.
abbrev pub unheard : Link → ℕ → ℕ
unheard up c = 0
unheard (refused e) c = c
unheard (lost e) c = c

abbrev pub cost_of : Request → ℕ
cost_of q = pos_part q.cost

-- A cost is a natural number.
abbrev pub WholeCost : Request → Type 0
WholeCost q = q.cost ≡ pos (cost_of q)

module _ (r : Redis) (w : World r) (key : String) where
  unfoldable pub own : Request → ℕ → ℕ
  own q c = if q.key == key then c else 0

  -- The costs for the key that Tier 1 lets through, check after check.
  unfoldable pub admitted : TokenBucketLimiter → List Request → Session r → ℕ
  unfolding own
  admitted l [] s = 0
  admitted l (q ∷ qs) s =
      let (d, s') = check (redis_store w) l q s in
      own q (let_through d (cost_of q)) + admitted l qs s'

  -- The costs for the key of the checks whose call fails, from the n-th call.
  unfoldable pub failed : ℕ → List Request → ℕ
  unfolding own
  failed n [] = 0
  failed n (q ∷ qs) = own q (unheard (w.link n) (cost_of q)) + failed (suc n) qs
