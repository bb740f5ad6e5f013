-- ===== src/Store/RedisStore/Clock.antt =====
-- A clock that does not run backwards from one call of services/core/store/redis.go to the next.
use rate_cap.Prelude.{ℕ, zero, suc, ◌+◌, ◌-◌, ◌≤◌, subst, arith}

at_once : (t : ℕ) → t ≤ t
at_once t = omega arith

later : (t u v : ℕ) → t ≤ u → u ≤ v → t ≤ v
later t u v h k = omega (arith, h, k)

module _ (time : ℕ → ℕ) (forwards : (n : ℕ) → time n ≤ time (suc n)) where
  climb_by : (k n : ℕ) → time n ≤ time (k + n)
  climb_by zero n = subst (λ m. time n ≤ time m) (omega arith) (at_once (time n))
  climb_by (suc k) n =
      subst (λ m. time n ≤ time m) (omega arith)
        (later (time n) (time (k + n)) (time (suc (k + n))) (climb_by k n) (forwards (k + n)))

  pub climb : (m n : ℕ) → m ≤ n → time m ≤ time n
  climb m n le = subst (λ k. time m ≤ time k) (omega arith) (climb_by (n - m) m)
