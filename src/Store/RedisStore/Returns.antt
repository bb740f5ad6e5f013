-- ===== src/Store/RedisStore/Returns.antt =====
-- A slot of Redis from its grant (services/core/store/redis.go) to the RPC that gives it back
-- (services/core/grpcserver/server.go), with other clients of the same Redis in between.
use Prim.Native.String.{◌++◌}
use rate_cap.Prelude.{
  String, true, none, ◌⊎◌, ◌≡◌, refl, ap, ◌∙◌, ◌==◌, ◌&&◌, inl, inr, Bool-cases, if◌then◌else◌,
  arith,
}
use rate_cap.Prelude.Int.{ℤ, pos, ◌-ℤ◌, ltb_ℤ}
use rate_cap.Store.Bucket.{Lua, done}
use rate_cap.Store.Redis.{Redis, Laws}
use rate_cap.Store.Slots.{concurrent_limiter}
use rate_cap.Store.Token.{sign_token, verify_token}
use rate_cap.Store.Token.Signing.{NoDot, verify_token-sign_token}
use rate_cap.Store.RedisStore.{
  World, Session, Link, up, refused, lost, redis_store, incr_concurrent, decr_concurrent, run,
  run_over, record_redis_call, slot_reply, error_of, concurrency_key_prefix,
}
use rate_cap.Server.{Server, reply, release_concurrency}

module _ (r : Redis) (laws : Laws r) (w : World r) where
  open r use {zscore}
  open laws use {zscore-zrem}

  slot_reply-run :
      (l : Link) (script : r.Db → Lua (ℤ × String) × r.Db) (db : r.Db) (token : String)
      → ((script db).0 ≡ done (pos 0, "")) ⊎ ((script db).0 ≡ done (pos 1, token))
      → (slot_reply w (run_over w l script db).0).allowed ≡ true
      → (slot_reply w (run_over w l script db).0).token ≡ token
  unfolding run_over slot_reply
  slot_reply-run up script db token (inl e) h =
      absurd (ground (arith, h, ap (λ a. (slot_reply w a).allowed) e))
  slot_reply-run up script db token (inr e) h = ap (λ a. (slot_reply w a).token) e
  slot_reply-run (refused m) script db token e h = absurd cc
  slot_reply-run (lost m) script db token e h = absurd cc

  concurrent_limiter-answers :
      (db : r.Db) (key : String) (cap max_duration now : ℤ) (token : String)
      → let (a, db') = concurrent_limiter r db key cap max_duration now token in
        (a ≡ done (pos 0, "")) ⊎ (a ≡ done (pos 1, token))
  unfolding concurrent_limiter
  concurrent_limiter-answers db key cap max_duration now token =
      elim (Bool-cases
        (ltb_ℤ (pos (r.zcard (r.zrem_range_by_score db key (now -ℤ max_duration)) key)) cap)) [
          | inl e ↦ inr (rw e refl)
          | inr e ↦ inl (rw e refl)
        ]

  -- A grant hands out the token that this call signed.
  granted-token :
      (key : String) (cap max_duration : ℤ) (s : Session r)
      → (incr_concurrent w key cap max_duration s).0.allowed ≡ true
      → (incr_concurrent w key cap max_duration s).0.token
        ≡ sign_token w.mac (w.uuid s.calls) w.signing_key
  unfolding incr_concurrent run
  granted-token key cap max_duration s h =
      slot_reply-run (w.link s.calls) _ (w.others s.calls s.db) _
        (concurrent_limiter-answers _ _ cap max_duration _ _) h

  -- The RPC with a token that the core signed, over a link that is up.
  release_signed :
      (key token : String) (v : Server (redis_store w))
      → verify_token w.mac token w.signing_key ≡ true
      → w.link v.store.calls ≡ up
      → let (answer, v') = release_concurrency (redis_store w) w.mac w.signing_key key token v in
        (answer ≡ reply tt)
        × (v'.store.db
            ≡ r.zrem (w.others v.store.calls v.store.db) (concurrency_key_prefix ++ key) token)
  unfolding release_concurrency decr_concurrent run run_over error_of record_redis_call
  release_signed key token v ok l = rw (ok, l) (refl, refl)

  -- Whatever happens in between, a slot that Redis grants is given back by the RPC for its token, if
  -- the link is up then and the uuid of the token has no dot: the RPC reports no error, the token
  -- holds no slot of the key any more, and all other slots are as the other clients left them.
  pub release_concurrency-incr_concurrent :
      (key : String) (cap max_duration : ℤ) (s : Session r) (v : Server (redis_store w))
      → NoDot (w.uuid s.calls)
      → (incr_concurrent w key cap max_duration s).0.allowed ≡ true
      → w.link v.store.calls ≡ up
      → let token = (incr_concurrent w key cap max_duration s).0.token in
        let (answer, v') = release_concurrency (redis_store w) w.mac w.signing_key key token v in
        (answer ≡ reply tt)
        × ((k m : String)
            → zscore v'.store.db k m ≡ (
                if (concurrency_key_prefix ++ key == k) && (token == m)
                then none
                else zscore (w.others v.store.calls v.store.db) k m))
  release_concurrency-incr_concurrent key cap max_duration s v nodot allowed l =
      let token = (incr_concurrent w key cap max_duration s).0.token in
      let ok : verify_token w.mac token w.signing_key ≡ true =
        ap (λ t. verify_token w.mac t w.signing_key) (granted-token key cap max_duration s allowed)
        ∙ verify_token-sign_token w.mac (w.uuid s.calls) w.signing_key nodot in
      let (answered, db) = release_signed key token v ok l in
      (
        answered,
        λ k m.
            ap (λ d. zscore d k m) db
            ∙ zscore-zrem (w.others v.store.calls v.store.db) (concurrency_key_prefix ++ key) k
                token m,
      )
