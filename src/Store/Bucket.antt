-- ===== src/Store/Bucket.antt =====
-- services/core/store/lua/token_bucket.lua and refund_tokens.lua. A count of tokens is kept in
-- thousandths, exactly: times are whole milliseconds and rates whole numbers. The scripts compute with
-- Lua's doubles, whose rounding is not modelled: with a fraction of a token in the bucket, a request
-- for all that it holds may be refused there and granted here, and a wait may differ by a
-- millisecond. Where the times are whole seconds apart, all counts are whole, and below 2 ^ 53
-- doubles hold them exactly.
pub mod Natural
pub mod Budget
pub mod History
pub mod Windows
pub mod Retry
pub mod Expiry
pub mod ZeroRate
pub mod Frame
use rate_cap.Prelude.{ℕ, String, Bool, Option, none, some, if◌then◌else◌}
use rate_cap.Prelude.Int.{ℤ, pos, ◌+ℤ◌, ◌-ℤ◌, ◌*ℤ◌, leb_ℤ, eqb_ℤ, max_ℤ, min_ℤ, floor_div, ceil_div}
use rate_cap.Limiter.{Error}
use rate_cap.Store.Redis.{Redis}

-- A script returns, or stops at an error with what it has written so far in place.
pub data Lua (A : Type 0) : Type 0 where
  done : A → Lua A
  fault : Error → Lua A

pub record Verdict : Type 0 where
  pub tokens : ℤ
  pub allowed : ℤ
  pub retry_after_ms : ℤ

-- `tokens` after the refill.
unfoldable pub refill : ℤ → ℤ → ℤ → ℤ → ℤ → ℤ
refill tokens updated_at rate burst now =
    min_ℤ (burst *ℤ pos 1000) (tokens +ℤ max_ℤ (pos 0) (now -ℤ updated_at) *ℤ rate)

unfoldable pub spend : ℤ → ℤ → ℤ → Verdict
spend tokens rate cost =
    if leb_ℤ (cost *ℤ pos 1000) tokens
    then record { tokens = tokens -ℤ cost *ℤ pos 1000; allowed = pos 1; retry_after_ms = pos 0 }
    else record {
      tokens = tokens;
      allowed = pos 0;
      retry_after_ms = ceil_div (cost *ℤ pos 1000 -ℤ tokens) rate;
    }

module _ (r : Redis) where
  open r use {Db, hget, hset, expire}

  -- From the two HSETs' values to the end. EXPIRE refuses the infinity that `burst / 0` gives.
  write_back : Db → String → ℤ → ℤ → ℤ → Verdict → Lua (ℤ × ℤ × ℤ) × Db
  write_back db key rate burst now v =
      let db' = hset (hset db key "tokens" v.tokens) key "updated_at" now in
      if eqb_ℤ rate (pos 0) then (fault "ERR value is not an integer or out of range", db') else (
        done (v.allowed, v.retry_after_ms, floor_div v.tokens 1000),
        expire db' key (ceil_div burst rate +ℤ pos 60),
      )

  -- HMGET's two answers, `tokens` and `updated_at`.
  with_bucket : Db → String → ℤ → ℤ → ℤ → ℤ → Option ℤ → Option ℤ → Lua (ℤ × ℤ × ℤ) × Db
  unfolding write_back
  with_bucket db key rate burst cost now none updated_at =
      write_back db key rate burst now
        (spend (refill (burst *ℤ pos 1000) now rate burst now) rate cost)
  with_bucket db key rate burst cost now (some tokens) none =
      (fault "attempt to perform arithmetic on a nil value", db)
  with_bucket db key rate burst cost now (some tokens) (some updated_at) =
      write_back db key rate burst now (spend (refill tokens updated_at rate burst now) rate cost)

  unfoldable pub token_bucket : Db → String → ℤ → ℤ → ℤ → ℤ → Lua (ℤ × ℤ × ℤ) × Db
  unfolding with_bucket
  token_bucket db key rate burst cost now =
      with_bucket db key rate burst cost now (hget db key "tokens") (hget db key "updated_at")

  refund_into : Db → String → ℤ → ℤ → Option ℤ → Lua ℤ × Db
  refund_into db key burst amount none = (done (pos 0), db)
  refund_into db key burst amount (some tokens) =
      let tokens' = min_ℤ (burst *ℤ pos 1000) (tokens +ℤ amount *ℤ pos 1000) in
      (done (floor_div tokens' 1000), hset db key "tokens" tokens')

  unfoldable pub refund_tokens : Db → String → ℤ → ℤ → Lua ℤ × Db
  unfolding refund_into
  refund_tokens db key burst amount = refund_into db key burst amount (hget db key "tokens")
