-- ===== src/Store/Slots.antt =====
-- services/core/store/lua/concurrent_limiter.lua: the slots of a key are a sorted set of tokens,
-- scored by the time of their grant.
pub mod Cap
pub mod Leases
pub mod Members
pub mod Refinement
use rate_cap.Prelude.{ℕ, String, Bool, if◌then◌else◌}
use rate_cap.Prelude.Int.{ℤ, pos, ◌+ℤ◌, ◌-ℤ◌, ltb_ℤ, ceil_div}
use rate_cap.Store.Redis.{Redis}
use rate_cap.Store.Bucket.{Lua, done}

module _ (r : Redis) where
  open r use {Db, expire, zrem_range_by_score, zcard, zadd}

  unfoldable pub concurrent_limiter : Db → String → ℤ → ℤ → ℤ → String → Lua (ℤ × String) × Db
  concurrent_limiter db key cap max_duration now token =
      let db' = zrem_range_by_score db key (now -ℤ max_duration) in
      if ltb_ℤ (pos (zcard db' key)) cap
      then (
        done (pos 1, token),
        expire (zadd db' key now token) key (ceil_div max_duration (pos 1000) +ℤ pos 60),
      )
      else (done (pos 0, ""), db')
