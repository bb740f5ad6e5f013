-- ===== src/Tests/Redis.antt =====
-- A slot of Redis, and the RPC that gives it back.
use Prim.Native.String.{◌++◌}
use rate_cap.Prelude.{
  ℕ, eqb, ◌+◌, ◌-◌, ◌*◌, ◌≤◌, List, ◌∷◌, arith, false, String, true, none, ◌≡◌, ◌==◌, ◌&&◌,
  if◌then◌else◌, refl, [],
}
use rate_cap.Prelude.Int.{pos}
use rate_cap.Store.Redis.Table
use rate_cap.Store.Redis.Table.{table, no_data, table_laws}
use rate_cap.Store.Slots.{concurrent_limiter}
use rate_cap.Limiter.{Request, sheddable}
use rate_cap.Limiter.TokenBucket.{new_token_bucket_limiter, check, settle}
use rate_cap.Store.Bucket.{token_bucket, refill, spend}
use rate_cap.Store.RedisStore.Passed.{own, admitted, failed}
use rate_cap.Store.RedisStore.Budget.{admitted-le-budget}
use rate_cap.Store.RedisStore.{
  World, Session, Link, up, refused, lost, check_and_decrement, record_fail_open, run, redis_store,
  incr_concurrent, concurrency_key_prefix,
}
use rate_cap.Store.RedisStore.Returns.{release_concurrency-incr_concurrent}
use rate_cap.Tests.Returns.{tiers}
use rate_cap.Server.{Server, reply, release_concurrency}

abbrev world : World table
world = record {
  clock = λ n. pos 1000;
  uuid = λ n. "u";
  link = λ n. up;
  others = λ n db. table.zadd db "cc:k" (pos 900) "v.0f";
  mac = λ key text. "0f";
  signing_key = "secret";
}

abbrev start : Session table
start = record { db = no_data; calls = 0; redis_errors = []; fail_opens = [] }

-- The core after the grant.
abbrev later : Server (redis_store world)
later = record { tiers = tiers; store = (incr_concurrent world "k" (pos 2) (pos 1000) start).1 }

grants : (incr_concurrent world "k" (pos 2) (pos 1000) start).0.allowed ≡ true
unfolding incr_concurrent concurrent_limiter Table.card Table.drop_members
grants = refl

release_concurrency-incr_concurrent_example :
    let token = (incr_concurrent world "k" (pos 2) (pos 1000) start).0.token in
    let (answer, v') =
      release_concurrency (redis_store world) world.mac world.signing_key "k" token later in
    (answer ≡ reply tt)
    × ((k m : String)
        → table.zscore v'.store.db k m ≡ (
            if (concurrency_key_prefix ++ "k" == k) && (token == m)
            then none
            else table.zscore (world.others later.store.calls later.store.db) k m))
release_concurrency-incr_concurrent_example =
    release_concurrency-incr_concurrent table table_laws world "k" (pos 2) (pos 1000) start later
      (refl, tt) grants refl

-- Requests of two keys; the call of the second is refused, and the reply to the third is lost.
abbrev tick : ℕ → ℕ
tick n = 1000 + n * 500

abbrev link_of : ℕ → Link
link_of n =
    if eqb n 1 then refused "connection refused" else (if eqb n 2 then lost "i/o timeout" else up)

abbrev shaky : World table
shaky = record world { clock = λ n. pos (tick n); link = link_of }

abbrev asked : String → ℕ → Request
asked key cost = record {
  key = key;
  cost = pos cost;
  skip_reservations = false;
  priority = sheddable;
}

abbrev requests : List Request
requests = asked "k" 4 ∷ asked "k" 3 ∷ asked "k" 1 ∷ asked "j" 2 ∷ []

admitted_requests :
    admitted table shaky "k" (new_token_bucket_limiter (pos 2) (pos 5) false) requests start ≡ 8
unfolding admitted own check settle check_and_decrement run token_bucket refill spend
    record_fail_open
admitted_requests = refl

failed_requests : failed table shaky "k" 0 requests ≡ 4
unfolding failed own
failed_requests = refl

admitted-le-budget_example :
    admitted table shaky "k" (new_token_bucket_limiter (pos 2) (pos 5) false) requests start * 1000
    ≤ 5 * 1000 + (tick 3 - tick 0) * 2 + failed table shaky "k" 0 requests * 1000
admitted-le-budget_example =
    admitted-le-budget table table_laws shaky "k" 2 5 tick (asked "k" 4)
      (asked "k" 3 ∷ asked "k" 1 ∷ asked "j" 2 ∷ []) start (omega arith) (λ n. refl)
      (λ n. omega arith) (λ n db g. refl) refl (refl, (refl, (refl, (refl, tt))))
