-- ===== src/Store/RedisStore/Checks.antt =====
-- A check of Tier 1 over Redis: the reply, and the database that it leaves
-- (services/core/store/redis.go, services/core/limiter/tokenbucket.go).
use Prim.Native.String.{◌++◌}
use Prim.Native.String.append.{nil, cons}
use text.Mathlib.TextPositions.{eq_refl}
use rate_cap.Prelude.{
  suc, String, false, none, ◌==◌, ◌≡◌, refl, ap, sym, ◌∙◌, inl, inr, Bool-cases, eq_iff, arith,
}
use rate_cap.Prelude.Int.{ℤ}
use rate_cap.Limiter.{no_decision, Request, Checked, returned}
use rate_cap.Limiter.TokenBucket.{TokenBucketLimiter, check, decide, settle}
use rate_cap.Store.Redis.{Redis, Laws}
use rate_cap.Store.Bucket.{Lua, done, fault, token_bucket}
use rate_cap.Store.Bucket.Frame.{token_bucket-other}
use rate_cap.Store.RedisStore.{
  World, Session, redis_store, record_fail_open, check_and_decrement, run, run_over,
  record_redis_call, bucket_reply, Link, up, refused, lost, rate_limiter_key_prefix,
}

abbrev pub bucket_key : String → String
bucket_key key = rate_limiter_key_prefix ++ key

after_prefix : String → String
after_prefix (String.◌∷◌ a (String.◌∷◌ b (String.◌∷◌ c s))) = s
after_prefix s = s

bucket_key_cons : (k : String) → bucket_key k ≡ String.◌∷◌ "r" (String.◌∷◌ "l" (String.◌∷◌ ":" k))
bucket_key_cons k =
    cons "r" "l:" k
    ∙ ap (String.◌∷◌ "r")
        (cons "l" ":" k ∙ ap (String.◌∷◌ "l") (cons ":" "" k ∙ ap (String.◌∷◌ ":") (nil k)))

-- Keys that differ have buckets that differ.
bucket_key_other : (j k : String) → (j == k) ≡ false → (bucket_key j == bucket_key k) ≡ false
unfolding after_prefix
bucket_key_other j k h = elim (Bool-cases (bucket_key j == bucket_key k)) [
  | inl e ↦
      let same : j ≡ k = ap after_prefix (
        sym (bucket_key_cons j) ∙ (eq_iff (bucket_key j) (bucket_key k)).0 e ∙ bucket_key_cons k) in
      absurd (ground (arith, h, eq_refl k, ap (λ x. x == k) same))
  | inr e ↦ e
]

module _ (r : Redis) (w : World r) where
  -- What the script does for a check.
  abbrev pub script_of : TokenBucketLimiter → Request → Session r → r.Db → Lua (ℤ × ℤ × ℤ) × r.Db
  script_of l q s db = token_bucket r db (bucket_key q.key) l.rate l.burst q.cost (w.clock s.calls)

  -- The call of a check, as the link lets it through.
  abbrev pub called : TokenBucketLimiter → Request → Session r → Lua (ℤ × ℤ × ℤ) × r.Db
  called l q s = run_over w (w.link s.calls) (script_of l q s) (w.others s.calls s.db)

  -- The decision on what a call gives.
  abbrev pub verdict : TokenBucketLimiter → Lua (ℤ × ℤ × ℤ) → Checked
  verdict l (done a) = returned (decide l (bucket_reply w (done a))) none
  verdict l (fault e) = returned (record no_decision { tier = "rate_limiter" }) none

  settled :
      (l : TokenBucketLimiter) (a : Lua (ℤ × ℤ × ℤ)) (s : Session r)
      → let (d, s') =
          settle
            (redis_store w)
            l
            (bucket_reply w a).err
            (bucket_reply w a)
            (record_redis_call w "check_and_decrement" a s) in
        (d ≡ verdict l a) × (s'.db ≡ s.db) × (s'.calls ≡ s.calls)
  unfolding settle bucket_reply record_redis_call record_fail_open
  settled l (done a) s = (refl, refl, refl)
  settled l (fault e) s = (refl, refl, refl)

  pub check-called :
      (l : TokenBucketLimiter) (q : Request) (s : Session r)
      → let (d, s') = check (redis_store w) l q s in
        (d ≡ verdict l (called l q s).0) × (s'.db ≡ (called l q s).1) × (s'.calls ≡ suc s.calls)
  unfolding check check_and_decrement run
  check-called l q s =
      let p = called l q s in settled l p.0 (record s { db = p.1; calls = suc s.calls })

module _ (r : Redis) (laws : Laws r) (w : World r) where
  -- A check leaves the buckets of other keys alone.
  script_of-other :
      (l : TokenBucketLimiter) (q : Request) (s : Session r) (db : r.Db) (key g : String)
      → (q.key == key) ≡ false
      → r.hget (script_of r w l q s db).1 (bucket_key key) g ≡ r.hget db (bucket_key key) g
  script_of-other l q s db key g e =
      token_bucket-other r laws db (bucket_key q.key) l.rate l.burst q.cost (w.clock s.calls)
        (bucket_key key) g (bucket_key_other q.key key e)

  run_over-other :
      (link : Link) (l : TokenBucketLimiter) (q : Request) (s : Session r) (db : r.Db)
      (key g : String)
      → (q.key == key) ≡ false
      → r.hget (run_over w link (script_of r w l q s) db).1 (bucket_key key) g
        ≡ r.hget db (bucket_key key) g
  unfolding run_over
  run_over-other up l q s db key g e = script_of-other l q s db key g e
  run_over-other (refused m) l q s db key g e = refl
  run_over-other (lost m) l q s db key g e = script_of-other l q s db key g e

  pub called-other :
      (l : TokenBucketLimiter) (q : Request) (s : Session r) (key g : String)
      → (q.key == key) ≡ false
      → r.hget (called r w l q s).1 (bucket_key key) g
        ≡ r.hget (w.others s.calls s.db) (bucket_key key) g
  called-other l q s key g e = run_over-other (w.link s.calls) l q s (w.others s.calls s.db) key g e
