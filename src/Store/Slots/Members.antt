-- ===== src/Store/Slots/Members.antt =====
-- Which tokens hold a slot of a key after a run of services/core/store/lua/concurrent_limiter.lua.
use text.Mathlib.TextPositions.{eq_refl}
use rate_cap.Prelude.{ℕ, String, Option, none, some, if◌then◌else◌, ◌==◌, ◌≡◌, ◌⊎◌, arith}
use rate_cap.Prelude.Int.{ℤ, pos, ◌+ℤ◌, ◌-ℤ◌, leb_ℤ, ceil_div}
use rate_cap.Store.Redis.{Redis, Laws}
use rate_cap.Store.Bucket.{done}
use rate_cap.Store.Slots.{concurrent_limiter}

-- A slot that is older than the longest duration of a request is given up.
abbrev pub unexpired : ℤ → ℤ → Option ℤ → Option ℤ
unexpired max_duration now none = none
unexpired max_duration now (some t) = if leb_ℤ t (now -ℤ max_duration) then none else some t

module _ (rds : Redis) (laws : Laws rds) where
  open rds use {Db, expire, zrem_range_by_score, zcard, zadd, zscore}

  -- With a duration that is not negative: a grant adds the token, stamped with the time, and
  -- otherwise both a grant and a refusal drop exactly the expired tokens of the key. A grant is
  -- told by the flag 1 and the token, a refusal by the flag 0 and the empty text.
  pub members_after :
      (db : Db) (key token m : String) (cap now : ℤ) (d : ℕ)
      → let (r, db') = concurrent_limiter rds db key cap (pos d) now token in
        ((r ≡ done (pos 1, token))
          × (zscore db' key m
              ≡ (if token == m then some now else unexpired (pos d) now (zscore db key m))))
        ⊎ ((r ≡ done (pos 0, "")) × (zscore db' key m ≡ unexpired (pos d) now (zscore db key m)))
  unfolding concurrent_limiter
  members_after db key token m cap now d =
      let reaped = zrem_range_by_score db key (now -ℤ pos d) in
      let added = zadd reaped key now token in
      ground (
        arith,
        eq_refl key,
        laws.zscore-zrem_range_by_score db key key m (now -ℤ pos d),
        laws.zscore-zadd reaped key key token m now,
        laws.zscore-expire added key key m (ceil_div (pos d) (pos 1000) +ℤ pos 60),
      )
