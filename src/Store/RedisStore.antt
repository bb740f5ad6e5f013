-- ===== src/Store/RedisStore.antt =====
-- services/core/store/redis.go: `RedisStore`, which fills the interface of the limiters. The
-- clock, the uuids, the state of the link to Redis and what other clients of the same Redis do
-- between two calls of this one are parameters, by the number of the call.
pub mod Returns
pub mod Checks
pub mod Passed
pub mod Clock
pub mod Spending
pub mod Budget
pub mod ZeroRate
use Prim.Native.String.{◌++◌}
use rate_cap.Prelude.{
  ℕ, suc, String, Bool, true, false, List, [], ◌∷◌, Option, none, some, if◌then◌else◌,
}
use rate_cap.Prelude.Int.{ℤ, pos, eqb_ℤ}
use rate_cap.Limiter.{Error, BucketReply, SlotReply, Backend}
use rate_cap.Store.Redis.{Redis}
use rate_cap.Store.Bucket.{Lua, done, fault, token_bucket, refund_tokens}
use rate_cap.Store.Slots.{concurrent_limiter}
use rate_cap.Store.Token.{sign_token}

abbrev pub rate_limiter_key_prefix : String
rate_limiter_key_prefix = "rl:"

abbrev pub concurrency_key_prefix : String
concurrency_key_prefix = "cc:"

-- A call goes through, or fails before Redis runs it, or its reply is lost.
pub data Link : Type 0 where
  up : Link
  refused lost : Error → Link

module _ (r : Redis) where
  open r use {Db, zrem}

  pub record World : Type 0 where
    pub clock : ℕ → ℤ
    pub uuid : ℕ → String
    pub link : ℕ → Link
    pub others : ℕ → Db → Db
    pub mac : String → String → String
    pub signing_key : String

  -- The database, the number of calls made, and the two error counters, by their labels.
  pub record Session : Type 0 where
    pub db : Db
    pub calls : ℕ
    pub redis_errors : List String
    pub fail_opens : List (String × String)

module _ {r : Redis} (w : World r) where
  open r use {Db, zrem}

  -- `RecordRedisCall`, less the latency.
  record_redis_call : {A : Type 0} → String → Lua A → Session r → Session r
  record_redis_call operation (done _) s = s
  record_redis_call operation (fault _) s = record s { redis_errors = operation ∷ s.redis_errors }

  pub run_over : {A : Type 0} → Link → (Db → Lua A × Db) → Db → Lua A × Db
  run_over up script db = script db
  run_over (refused e) script db = (fault e, db)
  run_over (lost e) script db = (fault e, (script db).1)

  unfoldable pub run : {A : Type 0} → String → (Db → Lua A × Db) → Session r → Lua A × Session r
  unfolding run_over record_redis_call
  run operation script s =
      let (a, db) = run_over (w.link s.calls) script (w.others s.calls s.db) in
      (a, record_redis_call operation a (record s { db = db; calls = suc s.calls }))

  pub bucket_reply : Lua (ℤ × ℤ × ℤ) → BucketReply
  bucket_reply (done (a, t, n)) = record {
    allowed = eqb_ℤ a (pos 1);
    retry_after_ms = t;
    remaining = n;
    err = none;
  }
  bucket_reply (fault e) = record {
    allowed = false;
    retry_after_ms = pos 0;
    remaining = pos 0;
    err = some e;
  }

  slot_reply : Lua (ℤ × String) → SlotReply
  slot_reply (done (a, token)) = record { allowed = eqb_ℤ a (pos 1); token = token; err = none }
  slot_reply (fault e) = record { allowed = false; token = ""; err = some e }

  error_of : {A : Type 0} → Lua A → Option Error
  error_of (done _) = none
  error_of (fault e) = some e

  unfoldable pub check_and_decrement : String → ℤ → ℤ → ℤ → Session r → BucketReply × Session r
  unfolding run bucket_reply
  check_and_decrement key rate burst cost s =
      let now = w.clock s.calls in
      let (a, s') =
        run "check_and_decrement"
          (λ db. token_bucket r db (rate_limiter_key_prefix ++ key) rate burst cost now) s in
      (bucket_reply a, s')

  unfoldable pub incr_concurrent : String → ℤ → ℤ → Session r → SlotReply × Session r
  unfolding run slot_reply
  incr_concurrent key cap max_duration s =
      let now = w.clock s.calls in
      let candidate_token = sign_token w.mac (w.uuid s.calls) w.signing_key in
      let (a, s') =
        run "incr_concurrent"
          (λ db.
            concurrent_limiter r db (concurrency_key_prefix ++ key) cap max_duration now
              candidate_token)
          s in
      (slot_reply a, s')

  unfoldable pub refund : String → ℤ → ℤ → Session r → Option Error × Session r
  unfolding run error_of
  refund key burst amount s =
      let (a, s') =
        run "refund_tokens" (λ db. refund_tokens r db (rate_limiter_key_prefix ++ key) burst amount)
          s in
      (error_of a, s')

  unfoldable pub decr_concurrent : String → String → Session r → Option Error × Session r
  unfolding run error_of
  decr_concurrent key token s =
      let (a, s') =
        run {A = Unit {0}} "decr_concurrent"
          (λ db. (done tt, zrem db (concurrency_key_prefix ++ key) token)) s in
      (error_of a, s')

  unfoldable pub record_fail_open : String → String → Session r → Session r
  record_fail_open tier reason s = record s { fail_opens = (tier, reason) ∷ s.fail_opens }

  -- `NewRedisStore`, as the limiters see it.
  abbrev pub redis_store : Backend
  redis_store = record {
    State = Session r;
    check_and_decrement = check_and_decrement;
    incr_concurrent = incr_concurrent;
    decr_concurrent = decr_concurrent;
    refund_tokens = refund;
    record_fail_open = record_fail_open;
  }
