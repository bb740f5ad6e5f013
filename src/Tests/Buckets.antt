-- ===== src/Tests/Buckets.antt =====
-- The bucket of Tier 1 and the tokens of Tier 2, on a database in memory.
use rate_cap.Prelude.{
  some, inr, ℕ, ◌+◌, ◌-◌, ◌*◌, ◌≤◌, String, Bool, true, List, [], ◌∷◌, none, ◌≡◌, refl, arith,
}
use rate_cap.Prelude.Int.{pos}
use rate_cap.Limiter.{allow, Decision, Request, sheddable, returned}
use rate_cap.Limiter.TokenBucket.{check}
use rate_cap.Store.Redis.Table.{table, no_data, table_laws}
use rate_cap.Store.Bucket.{done, token_bucket, spend, refill}
use rate_cap.Store.Bucket.Natural.{Holds}
use rate_cap.Store.Bucket.Budget.{granted, charged, last_time, granted-le-budget}
use rate_cap.Store.Bucket.History.{by_windows}
use rate_cap.Store.Bucket.Windows.{granted_flags, granted_flags-by_seconds, at_seconds}
use rate_cap.Store.Bucket.Retry.{retry_after-close}
use rate_cap.Store.Bucket.Expiry.{expiry_unobservable}
use rate_cap.Store.RedisStore.{World, Session, up, redis_store}
use rate_cap.Store.RedisStore.ZeroRate.{zero_rate_admits}

abbrev traffic : List (ℕ × ℕ)
traffic = (100, 4) ∷ (100, 9) ∷ (2000, 9) ∷ []

abbrev seconds : List (ℕ × ℕ)
seconds = (0, 4) ∷ (1, 9) ∷ (2, 9) ∷ []

granted-le-budget_example :
    granted table table_laws no_data "k" 5 10 ((0, 3) ∷ traffic) * 1000
    ≤ 10 * 1000 + (last_time 0 traffic - 0) * 5
granted-le-budget_example =
    granted-le-budget table table_laws no_data "k" 5 10 0 3 traffic (omega arith) refl
      (omega arith, (omega arith, (omega arith, tt)))

granted_flags-by_seconds_example :
    let requests = at_seconds table table_laws 100 ((0, 3) ∷ seconds) in
    granted_flags table table_laws no_data "k" 5 10 requests ≡ by_windows 5 10 [] requests
granted_flags-by_seconds_example =
    granted_flags-by_seconds table table_laws no_data "k" 5 10 100 3 seconds (omega arith) refl
      (omega arith, (omega arith, (omega arith, tt)))

-- A bucket with so many thousandths, written at 5000.
abbrev bucket : ℕ → table.Db
bucket t = table.hset (table.hset no_data "k" "tokens" (pos t)) "k" "updated_at" (pos 5000)

bucket-Holds : (t : ℕ) → Holds table table_laws (bucket t) "k" t 5000
bucket-Holds t = record { tokens = refl; updated_at = refl }

retry_after-close_example :
    let p = token_bucket table (bucket 500) "k" (pos 2) (pos 10) (pos 3) (pos 5001) in
    let later = λ (v : ℕ).
      charged (token_bucket table p.1 "k" (pos 2) (pos 10) (pos 3) (pos (5001 + v))).0 3 in
    (w n : ℕ) × (p.0 ≡ done (pos 0, pos w, pos n))
    × ((v : ℕ) → w + 1 ≤ v → later v ≡ 3)
    × ((v : ℕ) → v + 2 ≤ w → later v ≡ 0)
unfolding token_bucket spend refill
retry_after-close_example =
    retry_after-close table table_laws (bucket 500) "k" 2 10 3 500 5000 5001 (omega arith)
      (bucket-Holds 500) (omega arith) (omega arith) refl

-- The bucket after a request at 5000; its timeout is of 65 seconds.
abbrev kept : table.Db
kept = (token_bucket table (bucket 700) "k" (pos 2) (pos 10) (pos 1) (pos 5000)).1

timeout_kept : table.ttl kept "k" ≡ some (pos 65)
unfolding token_bucket spend refill
timeout_kept = refl

expiry_unobservable_example :
    let p = token_bucket table kept "k" (pos 2) (pos 10) (pos 3) (pos 70000) in
    let q = token_bucket table no_data "k" (pos 2) (pos 10) (pos 3) (pos 70000) in
    (p.0 ≡ q.0)
    × (table.hget p.1 "k" "tokens" ≡ table.hget q.1 "k" "tokens")
    × (table.hget p.1 "k" "updated_at" ≡ table.hget q.1 "k" "updated_at")
expiry_unobservable_example =
    expiry_unobservable table table_laws (bucket 700) no_data "k" 2 10 3 1 5000 70000 65
      (omega arith) (inr (700, 5000, bucket-Holds 700)) timeout_kept refl (omega arith)

abbrev tag : String → String → String
tag key text = "0f"

abbrev quiet : World table
quiet = record {
  clock = λ n. pos 1000;
  uuid = λ n. "u";
  link = λ n. up;
  others = λ n db. db;
  mac = tag;
  signing_key = "secret";
}

abbrev start : Session table
start = record { db = no_data; calls = 0; redis_errors = []; fail_opens = [] }

abbrev costly : Request
costly = record { key = "k"; cost = pos 1000000; skip_reservations = true; priority = sheddable }

zero_rate_admits_example :
    (d : Decision) × ((check
        (redis_store quiet)
        (record { rate = pos 0; burst = pos 10; shadow_mode = Bool.false })
        costly
        start).0
      ≡ returned d none)
    × (d.action ≡ allow)
zero_rate_admits_example =
    zero_rate_admits table quiet (record { rate = pos 0; burst = pos 10; shadow_mode = Bool.false })
      costly start refl
