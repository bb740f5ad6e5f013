-- ===== src/Store/RedisStore/Spending.antt =====
-- What one check of Tier 1 over Redis takes from the bucket of a key, and what many take
-- (services/core/limiter/tokenbucket.go, services/core/store/redis.go).
use rate_cap.Prelude.{
  ℕ, suc, ◌+◌, ◌-◌, ◌*◌, ◌/◌, ◌≤◌, String, true, false, List, [], ◌∷◌, length, none, ◌⊎◌, inl, inr,
  ◌≡◌, refl, ap, ◌∙◌, ◌==◌, Bool-cases, eq_iff, All, arith, leb,
}
use rate_cap.Prelude.Int.{ℤ, pos}
use rate_cap.Limiter.{Request}
use rate_cap.Limiter.TokenBucket.{TokenBucketLimiter, new_token_bucket_limiter, check, decide}
use rate_cap.Store.Redis.{Redis, Laws}
use rate_cap.Store.Bucket.{Lua, done, token_bucket}
use rate_cap.Store.Bucket.Natural.{
  refilled, left, flag, wait, Holds, Ran, token_bucket-new, token_bucket-refilled,
}
use rate_cap.Store.Bucket.Budget.{left-flag, flag_granted, flag_refused, join_spans}
use rate_cap.Store.RedisStore.{
  Link, up, refused, lost, World, Session, redis_store, run_over, bucket_reply,
}
use rate_cap.Store.RedisStore.Checks.{bucket_key, called, verdict, check-called, called-other}
use rate_cap.Store.RedisStore.Passed.{
  own, admitted, failed, let_through, unheard, cost_of, WholeCost,
}
use rate_cap.Store.RedisStore.Clock.{climb}

module _ (r : Redis) (laws : Laws r) (w : World r) (key : String) (rt b : ℕ) where
  abbrev limiter : TokenBucketLimiter
  limiter = new_token_bucket_limiter (pos (suc rt)) (pos b) false

  -- There are at most `t` thousandths, counted at the time `u`: in the bucket, or in the one that
  -- the first run of the script makes.
  abbrev Level : r.Db → ℕ → ℕ → Type 0
  Level db t u =
      Holds r laws db (bucket_key key) t u
      ⊎ ((r.hget db (bucket_key key) "tokens" ≡ none) × (b * 1000 ≤ t))

  Level-same :
      (db db' : r.Db) (t u : ℕ)
      → ((g : String) → r.hget db' (bucket_key key) g ≡ r.hget db (bucket_key key) g)
      → Level db t u
      → Level db' t u
  Level-same db db' t u same (inl h) =
      inl (record {
        tokens = same "tokens" ∙ h.tokens;
        updated_at = same "updated_at" ∙ h.updated_at;
      })
  Level-same db db' t u same (inr (e, le)) = inr (same "tokens" ∙ e, le)

  script : r.Db → ℕ → ℕ → Lua (ℤ × ℤ × ℤ) × r.Db
  script db c now = token_bucket r db (bucket_key key) (pos (suc rt)) (pos b) (pos c) (pos now)

  script-Ran :
      (db : r.Db) (t u c now : ℕ)
      → Level db t u
      → (t' : ℕ) × (t' ≤ t + (now - u) * suc rt)
        × Ran r laws db (bucket_key key) t' (suc rt) c now (script db c now)
  unfolding script
  script-Ran db t u c now (inl h) = (
    refilled t u (suc rt) b now,
    ground arith,
    token_bucket-refilled r laws db (bucket_key key) t u rt b c now h,
  )
  script-Ran db t u c now (inr (e, le)) =
      (b * 1000, omega (arith, le), token_bucket-new r laws db (bucket_key key) rt b c now e)

  granted_cost :
      (t c : ℕ) (x y : ℤ)
      → let_through (verdict r w limiter (done (pos (flag t c), x, y))) c ≡ flag t c * c
  unfolding decide bucket_reply
  granted_cost t c x y = elim (Bool-cases (leb (c * 1000) t)) [
    | inl e ↦ rw (flag_granted t c (ground arith)) (rw e refl)
    | inr e ↦ rw ((flag_refused t c (ground arith)).0) (rw e refl)
  ]

  -- A step from a level: what it lets through comes out of the level and the refill, but for what
  -- fails.
  record Spent (t u now : ℕ) (db : r.Db) (passed missing : ℕ) : Type 0 where
    rest : ℕ
    at : ℕ
    level : Level db rest at
    after : u ≤ at
    before : at ≤ now
    spent : passed * 1000 + rest ≤ t + (at - u) * suc rt + missing * 1000

  run_over-Spent :
      (link : Link) (db : r.Db) (t u c now : ℕ)
      → u ≤ now
      → Level db t u
      → let p = run_over w link (λ d. script d c now) db in
        Spent t u now p.1 (let_through (verdict r w limiter p.0) c) (unheard link c)
  unfolding run_over
  run_over-Spent up db t u c now le h =
      let (t', bound, ran) = script-Ran db t u c now h in
      record {
        rest = left t' c;
        at = now;
        level = inl ran.bucket;
        after = le;
        before = omega arith;
        spent =
            rw (ran.reply, granted_cost t' c (pos (wait t' (suc rt) c)) (pos (left t' c / 1000)))
              (omega (arith, bound, left-flag t' c));
      }
  run_over-Spent (refused e) db t u c now le h = record {
    rest = t;
    at = u;
    level = h;
    after = omega arith;
    before = le;
    spent = omega arith;
  }
  run_over-Spent (lost e) db t u c now le h =
      let (t', bound, ran) = script-Ran db t u c now h in
      record {
        rest = left t' c;
        at = now;
        level = inl ran.bucket;
        after = le;
        before = omega arith;
        spent = omega (arith, bound, left-flag t' c);
      }

  module _ (time : ℕ → ℕ) (clock : (n : ℕ) → w.clock n ≡ pos (time n))
      (forwards : (n : ℕ) → time n ≤ time (suc n))
      (apart : (n : ℕ) (db : r.Db) (g : String)
        → r.hget (w.others n db) (bucket_key key) g ≡ r.hget db (bucket_key key) g) where
    abbrev over : Request → Session r → String → ℤ → ℤ → Lua (ℤ × ℤ × ℤ) × r.Db
    over q s k c now =
        run_over w (w.link s.calls)
          (λ d. token_bucket r d (bucket_key k) (pos (suc rt)) (pos b) c now)
          (w.others s.calls s.db)

    own_call :
        (q : Request) (s : Session r)
        → (q.key == key) ≡ true
        → WholeCost q
        → called r w limiter q s
          ≡ run_over w
              (w.link s.calls)
              (λ d. script d (cost_of q) (time s.calls))
              (w.others s.calls s.db)
    unfolding script
    own_call q s e whole =
        ap (λ k. over q s k q.cost (w.clock s.calls)) ((eq_iff q.key key).0 e)
        ∙ ap (λ c. over q s key c (w.clock s.calls)) whole
        ∙ ap (over q s key (pos (cost_of q))) (clock s.calls)

    check-Spent :
        (q : Request) (s : Session r) (t u : ℕ)
        → WholeCost q
        → u ≤ time s.calls
        → Level s.db t u
        → let (d, s') = check (redis_store w) limiter q s in
          Spent t u
            (time s.calls)
            s'.db
            (own r w key q (let_through d (cost_of q)))
            (own r w key q (unheard (w.link s.calls) (cost_of q)))
    unfolding own
    check-Spent q s t u whole le h =
        let (d, db, calls) = check-called r w limiter q s in
        elim (Bool-cases (q.key == key)) [
          | inl e ↦
              rw (d, db, e, own_call q s e whole)
                (run_over-Spent (w.link s.calls) (w.others s.calls s.db) t u (cost_of q)
                  (time s.calls) le
                  (Level-same s.db (w.others s.calls s.db) t u (apart s.calls s.db) h))
          | inr e ↦
              rw (d, db, e)
                (record {
                  rest = t;
                  at = u;
                  level =
                      Level-same s.db (called r w limiter q s).1 t u
                        (λ g. called-other r laws w limiter q s key g e ∙ apart s.calls s.db g) h;
                  after = omega arith;
                  before = le;
                  spent = omega arith;
                })
        ]

    pub admitted-Level :
        (end : ℕ) (qs : List Request) (s : Session r) (t u : ℕ)
        → s.calls + length qs ≤ suc end
        → u ≤ time s.calls
        → u ≤ time end
        → Level s.db t u
        → All WholeCost qs
        → admitted r w key limiter qs s * 1000
          ≤ t + (time end - u) * suc rt + failed r w key s.calls qs * 1000
    unfolding admitted failed
    admitted-Level end [] s t u fits le le' h whole = omega arith
    admitted-Level end (q ∷ qs) s t u fits le le' h whole =
        let s' = (check (redis_store w) limiter q s).1 in
        let calls : s'.calls ≡ suc s.calls = (check-called r w limiter q s).2 in
        let one = check-Spent q s t u whole.0 le h in
        let until : time s.calls ≤ time end = climb time forwards s.calls end (omega arith) in
        let on_time : one.at ≤ time s'.calls =
          rw calls (omega (arith, one.before, forwards s.calls)) in
        let ih =
          admitted-Level end qs s' one.rest one.at (omega (arith, calls)) on_time
            (omega (arith, one.before)) one.level whole.1 in
        omega (
          arith,
          ih,
          one.spent,
          ap (λ n. failed r w key n qs) calls,
          join_spans u one.at (time end) (suc rt) one.after (omega (arith, one.before)),
        )
