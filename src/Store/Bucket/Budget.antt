-- ===== src/Store/Bucket/Budget.antt =====
-- How much a bucket grants over a history of requests (services/core/store/lua/token_bucket.lua).
use rate_cap.Prelude.{
  ℕ, zero, suc, ◌+◌, ◌-◌, ◌*◌, ◌≤◌, ◌<◌, String, List, [], ◌∷◌, none, ◌≡◌, ap, arith,
}
use rate_cap.Prelude.Int.{ℤ, pos, pos_part}
use rate_cap.Store.Redis.{Redis, Laws}
use rate_cap.Store.Bucket.{Lua, done, fault, token_bucket}
use rate_cap.Store.Bucket.Natural.{
  refilled, left, flag, Holds, Ran, token_bucket-new, token_bucket-refilled,
}

-- Requests as (time in milliseconds, cost); the times do not run backwards.
abbrev pub Ordered : ℕ → List (ℕ × ℕ) → Type 0
Ordered u [] = Unit {0}
Ordered u ((now, c) ∷ h) = (u ≤ now) × Ordered now h

-- The time of the last request.
abbrev pub last_time : ℕ → List (ℕ × ℕ) → ℕ
last_time u [] = u
last_time u ((now, c) ∷ h) = last_time now h

-- What a reply charges for a request.
abbrev pub charged : Lua (ℤ × ℤ × ℤ) → ℕ → ℕ
charged (done (a, t, n)) c = pos_part a * c
charged (fault e) c = 0

last_time-le : (u : ℕ) (h : List (ℕ × ℕ)) → Ordered u h → u ≤ last_time u h
last_time-le u [] o = omega arith
last_time-le u ((now, c) ∷ h) o = omega (arith, o.0, last_time-le now h o.1)

pub left-flag : (t c : ℕ) → left t c + flag t c * c * 1000 ≡ t
left-flag t c = ground arith

pub flag_granted : (t c : ℕ) → c * 1000 ≤ t → flag t c * c ≡ c
flag_granted t c h = ground arith

pub flag_refused : (t c : ℕ) → t < c * 1000 → (flag t c * c ≡ 0) × (left t c ≡ t)
flag_refused t c h = ground arith

-- Two stretches of time refill what the whole does.
pub join_spans :
    (u now end r : ℕ) → u ≤ now → now ≤ end → (now - u) * r + (end - now) * r ≡ (end - u) * r
join_spans u now end r h k =
    let e : (now - u) + (end - now) ≡ end - u = omega arith in
    omega (arith, ap (λ (t : ℕ). t * r) e)

module _ (rds : Redis) (laws : Laws rds) where
  open rds use {Db, hget}

  -- The total cost that the script grants, run for one request after the other.
  pub granted : Db → String → ℕ → ℕ → List (ℕ × ℕ) → ℕ
  granted db key r b [] = 0
  granted db key r b ((now, c) ∷ h) =
      let p = token_bucket rds db key (pos r) (pos b) (pos c) (pos now) in
      charged p.0 c + granted p.1 key r b h

  granted-step :
      (db : Db) (key : String) (t r b now c end : ℕ) (h : List (ℕ × ℕ)) (p : Lua (ℤ × ℤ × ℤ) × Db)
      → Ran rds laws db key t r c now p
      → granted p.1 key r b h * 1000 ≤ left t c + (end - now) * r
      → (charged p.0 c + granted p.1 key r b h) * 1000 ≤ t + (end - now) * r
  granted-step db key t r b now c end h p ran ih = rw (ran.reply) (omega (arith, ih, left-flag t c))

  granted-Holds :
      (db : Db) (key : String) (t u r b : ℕ) (h : List (ℕ × ℕ))
      → Holds rds laws db key t u
      → Ordered u h
      → granted db key (suc r) b h * 1000 ≤ t + (last_time u h - u) * suc r
  unfolding granted
  granted-Holds db key t u r b [] holds o = omega arith
  granted-Holds db key t u r b ((now, c) ∷ h) holds o =
      let ran = token_bucket-refilled rds laws db key t u r b c now holds in
      let p = token_bucket rds db key (pos (suc r)) (pos b) (pos c) (pos now) in
      let ih =
        granted-Holds p.1 key (left (refilled t u (suc r) b now) c) now r b h ran.bucket o.1 in
      omega (
        arith,
        granted-step db key (refilled t u (suc r) b now) (suc r) b now c (last_time now h) h p ran
            ih,
        join_spans u now (last_time now h) (suc r) o.0 (last_time-le now h o.1),
      )

  -- However the requests come, as long as the clock does not run backwards, a fresh bucket grants
  -- at most the burst and what the rate gives for the time from the first request to the last.
  pub granted-le-budget :
      (db : Db) (key : String) (rate b first c : ℕ) (h : List (ℕ × ℕ))
      → 0 < rate
      → hget db key "tokens" ≡ none
      → Ordered first h
      → granted db key rate b ((first, c) ∷ h) * 1000
        ≤ b * 1000 + (last_time first h - first) * rate
  unfolding granted
  granted-le-budget db key zero b first c h pos_rate e o = absurd (omega arith)
  granted-le-budget db key (suc r) b first c h pos_rate e o =
      let ran = token_bucket-new rds laws db key r b c first e in
      let p = token_bucket rds db key (pos (suc r)) (pos b) (pos c) (pos first) in
      granted-step db key (b * 1000) (suc r) b first c (last_time first h) h p ran
        (granted-Holds p.1 key (left (b * 1000) c) first r b h ran.bucket o)

  -- A check stamped before the last write moves the stamp back, and the bucket refills again for
  -- time that it has been refilled for: an empty bucket refuses a request at the earlier time,
  -- and then grants it at the very time of the last write, if the cost is within the burst and
  -- within what the rate gives for the difference of the two clocks.
  pub rewind_refills :
      (db : Db) (key : String) (rate b c now earlier : ℕ)
      → 0 < rate
      → Holds rds laws db key 0 now
      → earlier ≤ now
      → 0 < c
      → c ≤ b
      → c * 1000 ≤ (now - earlier) * rate
      → let p = token_bucket rds db key (pos rate) (pos b) (pos c) (pos earlier) in
        let q = token_bucket rds p.1 key (pos rate) (pos b) (pos c) (pos now) in
        (charged p.0 c ≡ 0) × (charged q.0 c ≡ c)
  rewind_refills db key zero b c now earlier h holds le hc hb hr = absurd (omega arith)
  rewind_refills db key (suc r) b c now earlier h holds le hc hb hr =
      let ran = token_bucket-refilled rds laws db key 0 now r b c earlier holds in
      let p = token_bucket rds db key (pos (suc r)) (pos b) (pos c) (pos earlier) in
      let t = refilled 0 now (suc r) b earlier in
      let ran' = token_bucket-refilled rds laws p.1 key (left t c) earlier r b c now ran.bucket in
      let no_time : earlier - now ≡ 0 = omega arith in
      let empty : t ≡ 0 = omega (arith, ap (λ (d : ℕ). d * suc r) no_time) in
      (
        rw (ran.reply) (flag_refused t c (omega arith)).0,
        rw (ran'.reply) (flag_granted (refilled (left t c) earlier (suc r) b now) c (omega arith)),
      )
