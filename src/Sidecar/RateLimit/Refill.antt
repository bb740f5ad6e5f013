-- ===== src/Sidecar/RateLimit/Refill.antt =====
-- The bucket of the sidecar's own limiter over time (services/sidecar/ratelimit).
use Prim.Native.Nat.{min}
use rate_cap.Prelude.{
  ℕ, ◌+◌, ◌-◌, ◌*◌, ◌≤◌, ◌<◌, true, false, ◌≡◌, ap, ltb, if◌then◌else◌, Bool-cases, inl, inr, arith,
}
use rate_cap.Prelude.Int.{ℤ, pos, negsuc, two_63, pos_part, ◌-ℤ◌, ◌≤ℤ◌, leb_ℤ, min_ℤ, max_ℤ}
use native.Mathlib.Nat.{mul-le-mul_right}
use rate_cap.Sidecar.RateLimit.{Limiter, sub_time, refill, allow, take}

-- The nanoseconds from one time to a later one.
abbrev pub span : ℤ → ℤ → ℕ
span t u = pos_part (u -ℤ t)

clamp-le : (m k : ℕ) (x : ℤ) → pos_part (max_ℤ (negsuc k) (min_ℤ (pos m) x)) ≤ pos_part x
clamp-le m k (pos n) = ground arith
clamp-le m k (negsuc n) = ground arith

clamp_within :
    (m k : ℕ) (x : ℤ)
    → 0 < pos_part x
    → pos_part x ≤ m
    → max_ℤ (negsuc k) (min_ℤ (pos m) x) ≡ pos (pos_part x)
clamp_within m k (pos n) h l = ground arith
clamp_within m k (negsuc n) h l = absurd (omega arith)

pub sub_time-le : (now t : ℤ) → pos_part (sub_time now t) ≤ span t now
unfolding sub_time
sub_time-le now t = clamp-le (two_63 - 1) (two_63 - 1) (now -ℤ t)

pub span_add : (t u v : ℤ) → t ≤ℤ u → u ≤ℤ v → span t u + span u v ≡ span t v
span_add t u v h k = ground arith

positive_part : (x : ℤ) → leb_ℤ x (pos 0) ≡ false → 0 < pos_part x
positive_part (pos n) h = ground arith
positive_part (negsuc n) h = absurd (cc)

pub span-le : (t u : ℤ) → 0 < span t u → t ≤ℤ u
span-le (pos a) (pos b) h = ground arith
span-le (pos a) (negsuc b) h = ground arith
span-le (negsuc a) (pos b) h = ground arith
span-le (negsuc a) (negsuc b) h = ground arith

pub refill-le :
    (now end : ℤ) (l : Limiter)
    → now ≤ℤ end
    → l.updated_at ≤ℤ end
    → ((refill now l).updated_at ≤ℤ end)
      × ((refill now l).tokens + span (refill now l).updated_at end * l.rate
          ≤ l.tokens + span l.updated_at end * l.rate)
unfolding refill
refill-le now end l h k = elim (Bool-cases (leb_ℤ (sub_time now l.updated_at) (pos 0))) [
  | inl e ↦ rw e (k, omega arith)
  | inr e ↦
      let less = sub_time-le now l.updated_at in
      let before =
        span-le l.updated_at now
          (omega (arith, less, positive_part (sub_time now l.updated_at) e)) in
      rw e (
        h,
        omega (
          arith,
          mul-le-mul_right l.rate less,
          ap (λ (x : ℕ). x * l.rate) (span_add l.updated_at now end before h),
        ),
      )
]

-- A grant takes one token of the refilled bucket.
pub allow-le :
    (now : ℤ) (l : Limiter)
    → let p = allow now l in
      (p.1.tokens + (if p.0 then 1 else 0) * l.one ≡ (refill now l).tokens)
      × (p.1.updated_at ≡ (refill now l).updated_at)
      × (p.1.one ≡ l.one)
      × (p.1.rate ≡ l.rate)
unfolding allow take refill
allow-le now l = ground arith

pub refill_keeps :
    (now : ℤ) (l : Limiter)
    → ((refill now l).burst ≡ l.burst)
      × ((refill now l).one ≡ l.one)
      × ((refill now l).rate ≡ l.rate)
unfolding refill
refill_keeps now l = ground arith

pub refill-le-burst : (now : ℤ) (l : Limiter) → l.tokens ≤ l.burst → (refill now l).tokens ≤ l.burst
unfolding refill
refill-le-burst now l h = ground arith

pub refill-ge : (now : ℤ) (l : Limiter) → l.tokens ≤ l.burst → l.tokens ≤ (refill now l).tokens
unfolding refill
refill-ge now l h = ground arith

-- A bucket that can hold no whole token lets no request through.
pub allow_lean :
    (now : ℤ) (l : Limiter)
    → l.tokens ≤ l.burst
    → l.burst < l.one
    → allow now l ≡ (false, refill now l)
unfolding allow take
allow_lean now l h k =
    let lean : ltb (refill now l).tokens (refill now l).one ≡ true =
      ground (arith, refill-le-burst now l h, refill_keeps now l) in
    rw lean

sub_time-span : (t u : ℤ) → 0 < span u t → span u t < two_63 → sub_time t u ≡ pos (span u t)
unfolding sub_time
sub_time-span t u h k = clamp_within (two_63 - 1) (two_63 - 1) (t -ℤ u) h (omega arith)

pub refill-span :
    (t : ℤ) (l : Limiter)
    → 0 < span l.updated_at t
    → span l.updated_at t < two_63
    → (refill t l).tokens ≡ min l.burst (l.tokens + span l.updated_at t * l.rate)
unfolding refill
refill-span t l h k = rw (sub_time-span t l.updated_at h k) (ground arith)

pub allow_paid :
    (t : ℤ) (l : Limiter) → (refill t l).one ≤ (refill t l).tokens → (allow t l).0 ≡ true
unfolding allow take
allow_paid t l h = ground arith
