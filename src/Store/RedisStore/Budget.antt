-- ===== src/Store/RedisStore/Budget.antt =====
-- How much Tier 1 lets through for a key over Redis, whatever the link does
-- (services/core/limiter/tokenbucket.go, services/core/store/redis.go).
use rate_cap.Prelude.{
  false, ℕ, zero, suc, ◌+◌, ◌-◌, ◌*◌, ◌≤◌, ◌<◌, String, List, ◌∷◌, length, none, inr, ◌≡◌, All,
  arith,
}
use rate_cap.Prelude.Int.{pos}
use rate_cap.Limiter.{Request}
use rate_cap.Limiter.TokenBucket.{new_token_bucket_limiter}
use rate_cap.Store.Redis.{Redis, Laws}
use rate_cap.Store.RedisStore.{World, Session}
use rate_cap.Store.RedisStore.Checks.{bucket_key}
use rate_cap.Store.RedisStore.Passed.{admitted, failed, WholeCost}
use rate_cap.Store.RedisStore.Spending.{admitted-Level}
use rate_cap.Store.RedisStore.Clock.{climb}

-- Whatever requests are checked one after the other, and whatever the link does, as long as the clock
-- does not run backwards and no other client writes the bucket of a key that is fresh at first, Tier 1,
-- outside shadow mode, lets through for the key at most the burst, what the rate gives for the time from the first
-- check to the last, and the costs of the checks whose call to Redis fails, if the rate is positive
-- and no cost is negative.
pub admitted-le-budget :
    (r : Redis) (laws : Laws r) (w : World r) (key : String) (rate b : ℕ) (time : ℕ → ℕ)
    (q : Request) (qs : List Request) (s : Session r)
    → 0 < rate
    → ((n : ℕ) → w.clock n ≡ pos (time n))
    → ((n : ℕ) → time n ≤ time (suc n))
    → ((n : ℕ) (db : r.Db) (g : String)
        → r.hget (w.others n db) (bucket_key key) g ≡ r.hget db (bucket_key key) g)
    → r.hget s.db (bucket_key key) "tokens" ≡ none
    → All WholeCost (q ∷ qs)
    → admitted r w key (new_token_bucket_limiter (pos rate) (pos b) false) (q ∷ qs) s * 1000
      ≤ b * 1000
        + (time (s.calls + length qs) - time s.calls) * rate
        + failed r w key s.calls (q ∷ qs) * 1000
admitted-le-budget r laws w key zero b time q qs s positive clock forwards apart fresh whole =
    absurd (omega arith)
admitted-le-budget r laws w key (suc rt) b time q qs s positive clock forwards apart fresh whole =
    admitted-Level r laws w key rt b time clock forwards apart (s.calls + length qs) (q ∷ qs) s
      (b * 1000) (time s.calls) (omega arith) (omega arith)
      (climb time forwards s.calls (s.calls + length qs) (omega arith)) (inr (fresh, omega arith))
      whole
