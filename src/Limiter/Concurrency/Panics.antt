-- ===== src/Limiter/Concurrency/Panics.antt =====
-- When `Check` of services/core/limiter/concurrency.go can panic: `time.NewTicker` does so on an
-- interval that is not positive.
use rate_cap.Prelude.{ℕ, zero, suc, true, ◌≡◌, arith}
use rate_cap.Prelude.Int.{pos, leb_ℤ}
use rate_cap.Limiter.{Request, Ending, deadline, ctx_done, Context, panicked, Backend}
use rate_cap.Limiter.Concurrency.{
  ConcurrencyLimiter, milliseconds, check, first_try, at_cap, enter_backlog, shadow_slot,
  acquire_backlog_slot, wait_in_backlog, poll_until_allowed_or_deadline, poll_loop, after_poll,
}

module _ (b : Backend) (l : ConcurrencyLimiter) (req : Request) where
  poll_loop-ne-panicked :
      (n : ℕ) (e : Ending) (s : b.State) → ¬ ((poll_loop b l req n e s).0 ≡ panicked)
  unfolding poll_loop after_poll
  poll_loop-ne-panicked zero deadline s h = cc
  poll_loop-ne-panicked zero (ctx_done m) s h = cc
  poll_loop-ne-panicked (suc n) e s h =
      let r = b.incr_concurrent req.key l.cap l.max_duration_ms s in
      ground (arith, poll_loop-ne-panicked n e r.1)

  -- The wait panics only on a poll interval that is not positive in nanoseconds.
  pub check-panicked :
      (ctx : Context) (s : b.State)
      → (check b l ctx req s).0 ≡ panicked
      → (l.queueing_enabled ≡ true) × (leb_ℤ (milliseconds l.poll_interval_ms) (pos 0) ≡ true)
  unfolding check first_try at_cap enter_backlog shadow_slot acquire_backlog_slot wait_in_backlog
      poll_until_allowed_or_deadline
  check-panicked ctx s h =
      let r = b.incr_concurrent req.key l.cap l.max_duration_ms s in
      let q = acquire_backlog_slot b req.key l.max_backlog l.max_queue_wait_ms r.1 in
      ground (arith, poll_loop-ne-panicked ctx.polls ctx.ending q.1)
