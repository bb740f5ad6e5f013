-- ===== src/Store/RedisStore/ZeroRate.antt =====
-- Tier 1 over Redis with a rate of 0, which SetDynamicLimit accepts
-- (services/core/store/redis.go, services/core/limiter/tokenbucket.go).
use Prim.Native.String.{◌++◌}
use rate_cap.Prelude.{String, none, some, ◌≡◌, refl, ap, ◌∙◌}
use rate_cap.Prelude.Int.{ℤ, pos}
use rate_cap.Limiter.{Error, allow, Decision, Request, returned}
use rate_cap.Limiter.TokenBucket.{TokenBucketLimiter, check}
use rate_cap.Limiter.TokenBucket.Laws.{check_fails_open}
use rate_cap.Store.Redis.{Redis}
use rate_cap.Store.Bucket.{Lua, fault, token_bucket}
use rate_cap.Store.Bucket.ZeroRate.{token_bucket-fault}
use rate_cap.Store.RedisStore.{
  Link, up, refused, lost, World, Session, redis_store, check_and_decrement, run, run_over,
  bucket_reply, rate_limiter_key_prefix,
}

module _ (r : Redis) (w : World r) where
  run_over-fault :
      {A : Type 0} (l : Link) (script : r.Db → Lua A × r.Db) (db : r.Db)
      → ((e : Error) × ((script db).0 ≡ fault e))
      → (e : Error) × ((run_over w l script db).0 ≡ fault e)
  unfolding run_over
  run_over-fault up script db h = h
  run_over-fault (refused m) script db h = (m, refl)
  run_over-fault (lost m) script db h = (m, refl)

  -- The call reports an error, whether Redis is reached or not.
  reply_err :
      (key : String) (burst cost : ℤ) (s : Session r)
      → (e : Error) × ((check_and_decrement w key (pos 0) burst cost s).0.err ≡ some e)
  unfolding check_and_decrement run bucket_reply
  reply_err key burst cost s =
      let db = w.others s.calls s.db in
      let (e, q) =
        run_over-fault (w.link s.calls)
          (λ db.
            token_bucket r db (rate_limiter_key_prefix ++ key) (pos 0) burst cost (w.clock s.calls))
          db
          (token_bucket-fault r db (rate_limiter_key_prefix ++ key) burst cost (w.clock s.calls)) in
      (e, ap (λ a. (bucket_reply w a).err) q)

  -- With a rate of 0, Tier 1 lets every request through, at any cost, also outside shadow mode and
  -- with the link up: the script fails, and a failure of the store lets pass.
  pub zero_rate_admits :
      (l : TokenBucketLimiter) (req : Request) (s : Session r)
      → l.rate ≡ pos 0
      → (d : Decision) × ((check (redis_store w) l req s).0 ≡ returned d none) × (d.action ≡ allow)
  zero_rate_admits l req s z =
      check_fails_open (redis_store w) l req s (reply_err req.key l.burst req.cost s).0 (
        ap (λ x. (check_and_decrement w req.key x l.burst req.cost s).0.err) z
        ∙ (reply_err req.key l.burst req.cost s).1)
