-- ===== src/Store/Bucket/Natural.antt =====
-- The token bucket script over the numbers that a validated configuration and a checked request
-- give it: a positive rate, and a burst, costs, times and tokens that are not negative.
use Prim.Native.Nat.{min}
use text.Mathlib.TextPositions.{eq_refl}
use rate_cap.Prelude.{
  ℕ, suc, ◌+◌, ◌-◌, ◌*◌, ◌/◌, String, false, none, some, leb, ◌==◌, ◌&&◌, if◌then◌else◌, ◌≡◌, refl,
  ap, sym, subst, ◌⊎◌, inl, inr, ◌∙◌, arith,
}
use rate_cap.Prelude.Int.{ℤ, pos}
use rate_cap.Store.Redis.{Redis, Laws}
use rate_cap.Store.Bucket.{Lua, done, Verdict, refill, spend, token_bucket, with_bucket, write_back}

-- The refilled count of tokens, in thousandths.
abbrev pub refilled : ℕ → ℕ → ℕ → ℕ → ℕ → ℕ
refilled tokens updated_at rate burst now = min (burst * 1000) (tokens + (now - updated_at) * rate)

-- The count that a request for `cost` leaves of a refilled count, and the wait it is told.
abbrev pub left : ℕ → ℕ → ℕ
left tokens cost = if leb (cost * 1000) tokens then tokens - cost * 1000 else tokens

abbrev pub flag : ℕ → ℕ → ℕ
flag tokens cost = if leb (cost * 1000) tokens then 1 else 0

abbrev pub wait : ℕ → ℕ → ℕ → ℕ
wait tokens rate cost =
    if leb (cost * 1000) tokens then 0 else (cost * 1000 - tokens + (rate - 1)) / rate

pub refill_lem :
    (t u r b n : ℕ) → refill (pos t) (pos u) (pos r) (pos b) (pos n) ≡ pos (refilled t u r b n)
unfolding refill
refill_lem t u r b n = ground arith

spend_lem :
    (t r c : ℕ)
    → spend (pos t) (pos r) (pos c) ≡ record {
      tokens = pos (left t c);
      allowed = pos (flag t c);
      retry_after_ms = pos (wait t r c);
    }
unfolding spend
spend_lem t r c = ground arith

module _ (rds : Redis) (laws : Laws rds) where
  open rds use {Db, hget, hset, expire, ttl}

  -- The hash of a bucket holds `t` thousandths, last written at `u`.
  pub record Holds (db : Db) (key : String) (t u : ℕ) : Type 0 where
    pub tokens : hget db key "tokens" ≡ some (pos t)
    pub updated_at : hget db key "updated_at" ≡ some (pos u)

  -- What a run of the script at `now` does from a refilled count `t`.
  pub record Ran (db : Db) (key : String) (t r c now : ℕ) (p : Lua (ℤ × ℤ × ℤ) × Db) : Type 0 where
    pub reply : p.0 ≡ done (pos (flag t c), pos (wait t r c), pos (left t c / 1000))
    pub bucket : Holds p.1 key (left t c) now
    pub others : (j g : String) → (key == j) ≡ false → hget p.1 j g ≡ hget db j g

  after_expire : Db → String → ℕ → ℕ → ℕ → Db
  after_expire db key t now ttl =
      expire (hset (hset db key "tokens" (pos t)) key "updated_at" (pos now)) key (pos (ttl + 60))

  hget-after_expire :
      (db : Db) (key : String) (t now ttl : ℕ) (j g : String)
      → hget (after_expire db key t now ttl) j g ≡ (
          if (key == j) && ("updated_at" == g)
          then some (pos now)
          else (if (key == j) && ("tokens" == g) then some (pos t) else hget db j g))
  unfolding after_expire
  hget-after_expire db key t now ttl j g = ground (
    arith,
    laws.hget-expire (hset (hset db key "tokens" (pos t)) key "updated_at" (pos now)) key j g
        (pos (ttl + 60)),
    laws.hget-hset (hset db key "tokens" (pos t)) key "updated_at" j g (pos now),
    laws.hget-hset db key "tokens" j g (pos t),
  )

  abbrev verdict : ℕ → ℕ → ℕ → Verdict
  verdict t r c = record {
    tokens = pos (left t c);
    allowed = pos (flag t c);
    retry_after_ms = pos (wait t r c);
  }

  abbrev outcome : Db → String → ℕ → ℕ → ℕ → ℕ → ℕ → Lua (ℤ × ℤ × ℤ) × Db
  outcome db key t r b c now = (
    done (pos (flag t c), pos (wait t r c), pos (left t c / 1000)),
    after_expire db key (left t c) now ((b + (r - 1)) / r),
  )

  write_back_lem :
      (db : Db) (key : String) (t r b c now : ℕ)
      → write_back rds db key (pos (suc r)) (pos b) (pos now) (verdict t (suc r) c)
        ≡ outcome db key t (suc r) b c now
  unfolding write_back after_expire
  write_back_lem db key t r b c now = ground arith

  ttl-outcome :
      (db : Db) (key : String) (t r b c now : ℕ)
      → ttl (outcome db key t r b c now).1 key ≡ some (pos ((b + (r - 1)) / r + 60))
  unfolding after_expire
  ttl-outcome db key t r b c now =
      laws.ttl-expire _ key (pos ((b + (r - 1)) / r + 60)) (ground arith)

  outcome-Ran :
      (db : Db) (key : String) (t r b c now : ℕ) → Ran db key t r c now (outcome db key t r b c now)
  outcome-Ran db key t r b c now =
      let get = hget-after_expire db key (left t c) now ((b + (r - 1)) / r) in
      record {
        reply = refl;
        bucket = record {
          tokens = get key "tokens" ∙ ground (arith, eq_refl key);
          updated_at = get key "updated_at" ∙ ground (arith, eq_refl key);
        };
        others = λ j g h. get j g ∙ ground arith;
      }

  -- The script on a key with no bucket starts from a full one.
  outcome_new :
      (db : Db) (key : String) (r b c now : ℕ)
      → hget db key "tokens" ≡ none
      → token_bucket rds db key (pos (suc r)) (pos b) (pos c) (pos now)
        ≡ outcome db key (b * 1000) (suc r) b c now
  unfolding token_bucket
  outcome_new db key r b c now e =
      let full : refilled (b * 1000) now (suc r) b now ≡ b * 1000 = omega arith in
      rw
        (
          e,
          token_bucket,
          with_bucket,
          refill_lem (b * 1000) now (suc r) b now,
          full,
          spend_lem (b * 1000) (suc r) c,
          write_back_lem db key (b * 1000) r b c now,
        )
        refl

  pub token_bucket-new :
      (db : Db) (key : String) (r b c now : ℕ)
      → hget db key "tokens" ≡ none
      → Ran db key
          (b * 1000)
          (suc r)
          c
          now
          (token_bucket rds db key (pos (suc r)) (pos b) (pos c) (pos now))
  token_bucket-new db key r b c now e =
      subst (Ran db key (b * 1000) (suc r) c now) (sym (outcome_new db key r b c now e))
        (outcome-Ran db key (b * 1000) (suc r) b c now)

  -- On a bucket it refills for the time since the last write.
  outcome_found :
      (db : Db) (key : String) (t u r b c now : ℕ)
      → Holds db key t u
      → token_bucket rds db key (pos (suc r)) (pos b) (pos c) (pos now)
        ≡ outcome db key (refilled t u (suc r) b now) (suc r) b c now
  unfolding token_bucket
  outcome_found db key t u r b c now h =
      rw
        (
          h.tokens,
          h.updated_at,
          token_bucket,
          with_bucket,
          refill_lem t u (suc r) b now,
          spend_lem (refilled t u (suc r) b now) (suc r) c,
          write_back_lem db key (refilled t u (suc r) b now) r b c now,
        )
        refl

  pub token_bucket-refilled :
      (db : Db) (key : String) (t u r b c now : ℕ)
      → Holds db key t u
      → Ran db key
          (refilled t u (suc r) b now)
          (suc r)
          c
          now
          (token_bucket rds db key (pos (suc r)) (pos b) (pos c) (pos now))
  token_bucket-refilled db key t u r b c now h =
      subst (Ran db key (refilled t u (suc r) b now) (suc r) c now)
        (sym (outcome_found db key t u r b c now h))
        (outcome-Ran db key (refilled t u (suc r) b now) (suc r) b c now)

  -- What the script finds at a key: no bucket, or one with so many thousandths.
  abbrev pub Found : Db → String → Type 0
  Found db key = (hget db key "tokens" ≡ none) ⊎ ((t u : ℕ) × Holds db key t u)

  -- The timeout that it sets.
  pub ttl-token_bucket :
      (db : Db) (key : String) (r b c now : ℕ)
      → Found db key
      → let p = token_bucket rds db key (pos (suc r)) (pos b) (pos c) (pos now) in
        ttl p.1 key ≡ some (pos ((b + (suc r - 1)) / suc r + 60))
  ttl-token_bucket db key r b c now (inl e) =
      ap (λ p. ttl p.1 key) (outcome_new db key r b c now e)
      ∙ ttl-outcome db key (b * 1000) (suc r) b c now
  ttl-token_bucket db key r b c now (inr (t, u, h)) =
      ap (λ p. ttl p.1 key) (outcome_found db key t u r b c now h)
      ∙ ttl-outcome db key (refilled t u (suc r) b now) (suc r) b c now

  -- It leaves a bucket, written now.
  pub token_bucket-Holds :
      (db : Db) (key : String) (r b c now : ℕ)
      → Found db key
      → let p = token_bucket rds db key (pos (suc r)) (pos b) (pos c) (pos now) in
        (t : ℕ) × Holds p.1 key t now
  token_bucket-Holds db key r b c now (inl e) = (_, (token_bucket-new db key r b c now e).bucket)
  token_bucket-Holds db key r b c now (inr (t, u, h)) =
      (_, (token_bucket-refilled db key t u r b c now h).bucket)
