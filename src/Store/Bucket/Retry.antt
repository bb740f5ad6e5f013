-- ===== src/Store/Bucket/Retry.antt =====
-- The wait that a refused request is told (services/core/store/lua/token_bucket.lua).
use Prim.Native.Nat.{min}
use native.Mathlib.Nat.{mul-le-mul_right, div-add-mod', mod-lt, le-div_iff_mul-le}
use rate_cap.Prelude.{ℕ, zero, suc, ◌+◌, ◌-◌, ◌*◌, ◌/◌, ◌≤◌, ◌<◌, String, ◌≡◌, ap, ◌∙◌, sym, arith}
use rate_cap.Prelude.Int.{ℤ, pos}
use rate_cap.Store.Redis.{Redis, Laws}
use rate_cap.Store.Bucket.{Lua, done, token_bucket}
use rate_cap.Store.Bucket.Natural.{refilled, left, flag, wait, Holds, token_bucket-refilled}
use rate_cap.Store.Bucket.Budget.{charged, flag_granted, flag_refused}

-- ⌈d / r⌉ times r reaches d, and nothing less does.
ceil_reaches : (d r : ℕ) → 0 < r → d ≤ (d + (r - 1)) / r * r
ceil_reaches d r h = omega (arith, div-add-mod' (d + (r - 1)) r, mod-lt (d + (r - 1)) h)

ceil_least : (d r v : ℕ) → 0 < r → v < (d + (r - 1)) / r → v * r < d
ceil_least d r v h k = omega (arith, (le-div_iff_mul-le {x = suc v} {y = d + (r - 1)} h).0 k)

refused : (t c : ℕ) → 0 < c → flag t c * c ≡ 0 → t < c * 1000
refused t c h e = ground arith

told :
    (t r c : ℕ) (n : ℤ)
    → t < c * 1000
    → ◌≡◌ {A = Lua (ℤ × ℤ × ℤ)}
        (done (pos (flag t c), pos (wait t r c), n))
        (done (pos 0, pos ((c * 1000 - t + (r - 1)) / r), n))
told t r c n h = ground arith

module _ (rds : Redis) (laws : Laws rds) where
  open rds use {Db}

  -- After the refusal, a request made v milliseconds later finds this count.
  later_count :
      (t r b c now v : ℕ)
      → t < c * 1000
      → t ≤ b * 1000
      → refilled (left t c) now r b (now + v) ≡ min (b * 1000) (t + v * r)
  later_count t r b c now v h k =
      let same : left t c ≡ t = (flag_refused t c h).1 in
      let span : now + v - now ≡ v = omega arith in omega (arith, same, ap (λ (d : ℕ). d * r) span)

  -- In exact numbers: a request that is refused, though its cost is within the burst, is told a wait
  -- w, and a request of the same cost is granted w milliseconds later or more and refused at any
  -- earlier time, if no other request comes in between.
  pub retry_after_exact :
      (db : Db) (key : String) (rate b c t u now : ℕ)
      → 0 < rate
      → Holds rds laws db key t u
      → 0 < c
      → c ≤ b
      → let p = token_bucket rds db key (pos rate) (pos b) (pos c) (pos now) in
        let later = λ (v : ℕ).
          charged (token_bucket rds p.1 key (pos rate) (pos b) (pos c) (pos (now + v))).0 c in
        charged p.0 c ≡ 0
        → (w n : ℕ) × (p.0 ≡ done (pos 0, pos w, pos n))
          × ((v : ℕ) → w ≤ v → later v ≡ c)
          × ((v : ℕ) → v < w → later v ≡ 0)
  retry_after_exact db key zero b c t u now h holds hc hb e = absurd (omega arith)
  retry_after_exact db key (suc r) b c t u now h holds hc hb e =
      let x = refilled t u (suc r) b now in
      let p = token_bucket rds db key (pos (suc r)) (pos b) (pos c) (pos now) in
      let ran = token_bucket-refilled rds laws db key t u r b c now holds in
      let short : x < c * 1000 = refused x c hc (ap (λ a. charged a c) (sym ran.reply) ∙ e) in
      let within : x ≤ b * 1000 = omega arith in
      let d = c * 1000 - x in
      let w : ℕ = (d + (suc r - 1)) / suc r in
      let next = λ (v : ℕ).
        token_bucket-refilled rds laws p.1 key (left x c) now r b c (now + v) ran.bucket in
      (
        w,
        left x c / 1000,
        ran.reply ∙ told x (suc r) c (pos (left x c / 1000)) short,
        λ v more.
            ap (λ a. charged a c) (next v).reply
            ∙ flag_granted (refilled (left x c) now (suc r) b (now + v)) c (
                omega (
                  arith,
                  later_count x (suc r) b c now v short within,
                  ceil_reaches d (suc r) h,
                  mul-le-mul_right (suc r) more,
                )),
        λ v less.
            ap (λ a. charged a c) (next v).reply
            ∙ (flag_refused (refilled (left x c) now (suc r) b (now + v)) c (
                omega (
                  arith,
                  later_count x (suc r) b c now v short within,
                  ceil_least d (suc r) v h less,
                ))).0,
      )

  -- A request that is refused, though its cost is within the burst, is told a wait that is right to
  -- two milliseconds: if no other request comes in between, a request of the same cost is granted at
  -- any time from a millisecond after it, and refused at any time up to two milliseconds before it.
  -- (That slack is more than the rounding of Lua's doubles, which can move the wait, and the
  -- grant at the very end of it, by a millisecond.)
  pub retry_after-close :
      (db : Db) (key : String) (rate b c t u now : ℕ)
      → 0 < rate
      → Holds rds laws db key t u
      → 0 < c
      → c ≤ b
      → let p = token_bucket rds db key (pos rate) (pos b) (pos c) (pos now) in
        let later = λ (v : ℕ).
          charged (token_bucket rds p.1 key (pos rate) (pos b) (pos c) (pos (now + v))).0 c in
        charged p.0 c ≡ 0
        → (w n : ℕ) × (p.0 ≡ done (pos 0, pos w, pos n))
          × ((v : ℕ) → w + 1 ≤ v → later v ≡ c)
          × ((v : ℕ) → v + 2 ≤ w → later v ≡ 0)
  retry_after-close db key rate b c t u now h holds hc hb e =
      let (w, n, told_wait, granted, refused_before) =
        retry_after_exact db key rate b c t u now h holds hc hb e in
      (
        w,
        n,
        told_wait,
        (λ v k. granted v (omega (arith, k))),
        λ v k. refused_before v (omega (arith, k)),
      )
