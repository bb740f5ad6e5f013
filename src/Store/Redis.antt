-- ===== src/Store/Redis.antt =====
-- Redis, which is not part of the repository: the commands that services/core/store uses, and
-- what their documentation says of them. A script runs as one step.
pub mod Table
use rate_cap.Prelude.{
  ℕ, suc, ◌≤◌, ◌≡◌, String, Bool, true, ◌&&◌, Option, none, some, if◌then◌else◌, ◌==◌,
}
use rate_cap.Prelude.Int.{ℤ, pos, leb_ℤ, ltb_ℤ}

-- A field of a hash holds a number in a unit of its own: `tokens` in thousandths, `updated_at` in
-- milliseconds. A score is a time in milliseconds.
pub record Redis : Type 1 where
  pub Db : Type 0
  pub hget : Db → String → String → Option ℤ
  pub hset : Db → String → String → ℤ → Db
  pub expire : Db → String → ℤ → Db
  -- What is left of the timeout of a key, in seconds.
  pub ttl : Db → String → Option ℤ
  -- ZREMRANGEBYSCORE key -inf max
  pub zrem_range_by_score : Db → String → ℤ → Db
  pub zcard : Db → String → ℕ
  pub zadd : Db → String → ℤ → String → Db
  pub zrem : Db → String → String → Db
  pub zscore : Db → String → String → Option ℤ

module _ (r : Redis) where
  open r use {Db, hget, hset, expire, ttl, zrem_range_by_score, zcard, zadd, zrem, zscore}

  -- The documented behaviour that the proofs rely on. EXPIRE with a timeout that is not positive
  -- deletes the key at once; with a positive one it leaves the value alone for now.
  pub record Laws : Type 0 where
    pub hget-hset :
        (db : Db) (k f j g : String) (v : ℤ)
        → hget (hset db k f v) j g ≡ (if (k == j) && (f == g) then some v else hget db j g)
    pub hget-expire :
        (db : Db) (k j g : String) (t : ℤ)
        → hget (expire db k t) j g ≡ (if (k == j) && leb_ℤ t (pos 0) then none else hget db j g)
    -- The timeout that was set, right after it was set.
    pub ttl-expire :
        (db : Db) (k : String) (t : ℤ) → ltb_ℤ (pos 0) t ≡ true → ttl (expire db k t) k ≡ some t
    pub zscore-zrem_range_by_score :
        (db : Db) (k j m : String) (max : ℤ)
        → zscore (zrem_range_by_score db k max) j m ≡ elim (zscore db j m) [
          | none ↦ none
          | some t ↦ if (k == j) && leb_ℤ t max then none else some t
        ]
    pub zscore-zadd :
        (db : Db) (k j m n : String) (t : ℤ)
        → zscore (zadd db k t m) j n ≡ (if (k == j) && (m == n) then some t else zscore db j n)
    pub zscore-zrem :
        (db : Db) (k j m n : String)
        → zscore (zrem db k m) j n ≡ (if (k == j) && (m == n) then none else zscore db j n)
    pub zscore-expire :
        (db : Db) (k j m : String) (t : ℤ)
        → zscore (expire db k t) j m ≡ (if (k == j) && leb_ℤ t (pos 0) then none else zscore db j m)
    pub zcard-zrem_range_by_score :
        (db : Db) (k : String) (max : ℤ) → zcard (zrem_range_by_score db k max) k ≤ zcard db k
    -- ZADD adds one member, or sets a new score; ZREM takes a member that is there, or does nothing.
    pub zcard-zadd :
        (db : Db) (k m : String) (t : ℤ)
        → zcard (zadd db k t m) k
          ≡ elim (zscore db k m) [ none ↦ suc (zcard db k) | some _ ↦ zcard db k ]
    pub zcard-zrem :
        (db : Db) (k m : String)
        → elim (zscore db k m) [
          | none ↦ zcard (zrem db k m) k
          | some _ ↦ suc (zcard (zrem db k m) k)
        ]
          ≡ zcard db k
    pub zcard-expire :
        (db : Db) (k : String) (t : ℤ)
        → zcard (expire db k t) k ≡ (if leb_ℤ t (pos 0) then 0 else zcard db k)
    -- A set with no member is empty.
    pub zcard_empty :
        (db : Db) (k : String) → ((m : String) → zscore db k m ≡ none) → zcard db k ≡ 0
