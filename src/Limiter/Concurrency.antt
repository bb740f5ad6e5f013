-- ===== src/Limiter/Concurrency.antt =====
-- services/core/limiter/concurrency.go: Tier 2, the cap on requests in flight for a key, with a
-- bounded queue in front of it.
pub mod Ledger
pub mod Polling
pub mod Returns
pub mod Panics
use Prim.Native.String.{◌++◌}
use rate_cap.Prelude.{
  ℕ, zero, suc, ◌-◌, ◌^◌, String, Bool, true, false, List, [], ◌∷◌, Option, none, some,
  if◌then◌else◌,
}
use rate_cap.Prelude.Int.{ℤ, pos, ◌*ℤ◌, leb_ℤ, wrap64}
use rate_cap.Limiter.{
  Action, allow, reject_429, shadow_log, queue, TokenReservation, Decision, no_decision, Request,
  Error, Ending, deadline, ctx_done, Context, Checked, returned, panicked, SlotReply, Backend,
}

-- `math.MaxInt32`
abbrev pub unbounded_cap : ℤ
unbounded_cap = pos (2 ^ 31 - 1)

abbrev pub backlog_key_prefix : String
backlog_key_prefix = "backlog:"

pub record ConcurrencyLimiter : Type 0 where
  pub cap : ℤ
  pub max_duration_ms : ℤ
  pub shadow_mode : Bool
  pub queueing_enabled : Bool
  pub max_backlog : ℤ
  pub max_queue_wait_ms : ℤ
  pub poll_interval_ms : ℤ

abbrev pub new_concurrency_limiter : ℤ → ℤ → Bool → Bool → ℤ → ℤ → ℤ → ConcurrencyLimiter
new_concurrency_limiter cap max_duration shadow queueing max_backlog max_wait poll = record {
  cap = cap;
  max_duration_ms = max_duration;
  shadow_mode = shadow;
  queueing_enabled = queueing;
  max_backlog = max_backlog;
  max_queue_wait_ms = max_wait;
  poll_interval_ms = poll;
}

unfoldable pub reconfigure :
    ℤ → ℤ → Bool → Bool → ℤ → ℤ → ℤ → ConcurrencyLimiter → ConcurrencyLimiter
reconfigure cap max_duration shadow queueing max_backlog max_wait poll l = record l {
  cap = cap;
  max_duration_ms = max_duration;
  shadow_mode = shadow;
  queueing_enabled = queueing;
  max_backlog = max_backlog;
  max_queue_wait_ms = max_wait;
  poll_interval_ms = poll;
}

-- `time.Duration(ms) * time.Millisecond`, in nanoseconds.
abbrev pub milliseconds : ℤ → ℤ
milliseconds ms = wrap64 (ms *ℤ pos 1_000_000)

-- A decision that holds one slot.
abbrev pub holding : Action → String → String → Decision
holding action key token = record no_decision {
  action = action;
  reservations = record { key = key; token = token } ∷ [];
  tier = "concurrency_limiter";
}

abbrev pub too_many : ConcurrencyLimiter → Decision
too_many l = record no_decision {
  action = reject_429;
  retry_after_ms = l.max_duration_ms;
  tier = "concurrency_limiter";
}

module _ (b : Backend) where
  open b use {State, incr_concurrent, decr_concurrent}

  unfoldable pub acquire_backlog_slot : String → ℤ → ℤ → State → SlotReply × State
  acquire_backlog_slot key max_backlog max_wait =
      incr_concurrent (backlog_key_prefix ++ key) max_backlog max_wait

  -- What a tick's `IncrConcurrent` leads to; `next` is the rest of the loop.
  unfoldable pub after_poll :
      Request → Option Error → SlotReply → (State → Checked × State) → State → Checked × State
  after_poll req (some e) r next s = (returned no_decision (some e), s)
  after_poll req none r next s =
      if r.allowed then (returned (holding queue req.key r.token) none, s) else next s

  -- The loop of `pollUntilAllowedOrDeadline`, over the ticks that come before the ending.
  unfoldable pub poll_loop : ConcurrencyLimiter → Request → ℕ → Ending → State → Checked × State
  poll_loop l req zero deadline s = (returned (too_many l) none, s)
  poll_loop l req zero (ctx_done e) s = (returned no_decision (some e), s)
  poll_loop l req (suc n) ending s =
      let (r, s') = incr_concurrent req.key l.cap l.max_duration_ms s in
      after_poll req r.err r (λ s''. poll_loop l req n ending s'') s'

  -- `time.NewTicker` panics on an interval that is not positive.
  unfoldable pub poll_until_allowed_or_deadline :
      ConcurrencyLimiter → Context → Request → State → Checked × State
  poll_until_allowed_or_deadline l ctx req s =
      if leb_ℤ (milliseconds l.poll_interval_ms) (pos 0)
      then (panicked, s)
      else poll_loop l req ctx.polls ctx.ending s

  -- The wait with a backlog slot in hand. The deferred release runs however the wait ends, and its
  -- error is dropped.
  unfoldable pub wait_in_backlog :
      ConcurrencyLimiter → Context → Request → String → State → Checked × State
  wait_in_backlog l ctx req backlog_token s =
      let (r, s') = poll_until_allowed_or_deadline l ctx req s in
      (r, (decr_concurrent (backlog_key_prefix ++ req.key) backlog_token s').1)

  unfoldable pub enter_backlog :
      ConcurrencyLimiter → Context → Request → Option Error → SlotReply → State → Checked × State
  enter_backlog l ctx req (some e) r s = (returned no_decision (some e), s)
  enter_backlog l ctx req none r s =
      if r.allowed then wait_in_backlog l ctx req r.token s else (returned (too_many l) none, s)

  -- Shadow mode: the slot is taken past the cap.
  unfoldable pub shadow_slot : Request → Option Error → SlotReply → State → Checked × State
  shadow_slot req (some e) r s = (returned no_decision (some e), s)
  shadow_slot req none r s = (returned (holding shadow_log req.key r.token) none, s)

  -- What follows a first `IncrConcurrent` that was refused.
  unfoldable pub at_cap : ConcurrencyLimiter → Context → Request → State → Checked × State
  at_cap l ctx req s =
      if l.shadow_mode
      then (let (r, s') = incr_concurrent req.key unbounded_cap l.max_duration_ms s in
          shadow_slot req r.err r s')
      else (if l.queueing_enabled
          then (let (r, s') = acquire_backlog_slot req.key l.max_backlog l.max_queue_wait_ms s in
              enter_backlog l ctx req r.err r s')
          else (returned (too_many l) none, s))

  unfoldable pub first_try :
      ConcurrencyLimiter → Context → Request → Option Error → SlotReply → State → Checked × State
  first_try l ctx req (some e) r s = (returned no_decision (some e), s)
  first_try l ctx req none r s =
      if r.allowed then (returned (holding allow req.key r.token) none, s) else at_cap l ctx req s

  unfoldable pub check : ConcurrencyLimiter → Context → Request → State → Checked × State
  check l ctx req s =
      if req.skip_reservations
      then (returned no_decision none, s)
      else (let (r, s') = incr_concurrent req.key l.cap l.max_duration_ms s in
          first_try l ctx req r.err r s')
