-- ===== src/Limiter/Concurrency/Polling.antt =====
-- How a wait in the queue of Tier 2 ends (`Check` and `pollUntilAllowedOrDeadline` of
-- services/core/limiter/concurrency.go), over a store with any answers.
use Prim.Native.String.{◌++◌ as ◌+++◌}
use rate_cap.Prelude.{
  ℕ, zero, suc, ◌+◌, ◌<◌, String, true, false, none, ◌≡◌, refl, subst, ◌∙◌, arith, ◌++◌,
}
use rate_cap.Prelude.Int.{pos, leb_ℤ}
use rate_cap.Limiter.{queue, Request, Ending, deadline, Context, returned, SlotReply}
use rate_cap.Limiter.Concurrency.{
  ConcurrencyLimiter, backlog_key_prefix, milliseconds, check, first_try, at_cap, enter_backlog,
  acquire_backlog_slot, wait_in_backlog, poll_until_allowed_or_deadline, poll_loop, after_poll,
  holding, too_many,
}
use rate_cap.Limiter.Concurrency.Ledger.{Answers, Ledger, ledger_backend, granted}

abbrev pub Refuses : SlotReply → Type 0
Refuses r = (r.err ≡ none) × (r.allowed ≡ false)

abbrev pub Grants : SlotReply → String → Type 0
Grants r token = (r.err ≡ none) × (r.allowed ≡ true) × (r.token ≡ token)

module _ (replies : Answers) (l : ConcurrencyLimiter) (req : Request) where
  -- The answer to the call number n, made for the request's own key under the cap.
  abbrev pub poll : ℕ → SlotReply
  poll n = replies.slot n req.key l.cap

  poll_loop-Grants :
      (k n : ℕ) (e : Ending) (s : Ledger) (m : ℕ) (token : String)
      → s.calls ≡ m
      → k < n
      → ((j : ℕ) → j < k → Refuses (poll (m + j)))
      → Grants (poll (m + k)) token
      → (poll_loop (ledger_backend replies) l req n e s).0
        ≡ returned (holding queue req.key token) none
  unfolding poll_loop after_poll
  poll_loop-Grants k zero e s m token c h before now = elim h [ ]
  poll_loop-Grants zero (suc n) e s m token c h before now =
      let here : Grants (poll s.calls) token =
        subst (λ i. Grants (poll i) token) (omega arith) now in
      ground arith
  poll_loop-Grants (suc k) (suc n) e s m token c h before now =
      let here : Refuses (poll s.calls) =
        subst (λ i. Refuses (poll i)) (omega arith) (before 0 (omega arith)) in
      ground (
        arith,
        poll_loop-Grants k n e
            (record { calls = suc s.calls; held = granted req.key (poll s.calls) ++ s.held })
            (suc m) token (omega arith) (omega arith)
            (λ j hj. subst (λ i. Refuses (poll i)) (omega arith) (before (suc j) (omega arith)))
            (subst (λ i. Grants (poll i) token) (omega arith) now),
      )

  poll_loop-times_out :
      (n : ℕ) (s : Ledger) (m : ℕ)
      → s.calls ≡ m
      → ((j : ℕ) → j < n → Refuses (poll (m + j)))
      → (poll_loop (ledger_backend replies) l req n deadline s).0 ≡ returned (too_many l) none
  unfolding poll_loop after_poll
  poll_loop-times_out zero s m c before = refl
  poll_loop-times_out (suc n) s m c before =
      let here : Refuses (poll s.calls) =
        subst (λ i. Refuses (poll i)) (omega arith) (before 0 (omega arith)) in
      ground (
        arith,
        poll_loop-times_out n
            (record { calls = suc s.calls; held = granted req.key (poll s.calls) ++ s.held })
            (suc m) (omega arith)
            (λ j hj. subst (λ i. Refuses (poll i)) (omega arith) (before (suc j) (omega arith))),
      )

  -- The request joins the queue: the cap refused it, and a backlog slot was free.
  pub record Queues (s : Ledger) : Type 0 where
    pub reserves : req.skip_reservations ≡ false
    pub live : l.shadow_mode ≡ false
    pub queueing : l.queueing_enabled ≡ true
    pub ticks : leb_ℤ (milliseconds l.poll_interval_ms) (pos 0) ≡ false
    pub at_cap : Refuses (poll s.calls)
    pub slot : String
    pub in_backlog :
        Grants (replies.slot (suc s.calls) (backlog_key_prefix +++ req.key) l.max_backlog) slot

  -- The ledger when the polling starts.
  abbrev waiting : Ledger → Ledger
  waiting s = record {
    calls = suc (suc s.calls);
    held =
        granted (backlog_key_prefix +++ req.key)
          (replies.slot (suc s.calls) (backlog_key_prefix +++ req.key) l.max_backlog)
        ++ granted req.key (poll s.calls)
        ++ s.held;
  }

  check-poll_loop :
      (ctx : Context) (s : Ledger)
      → Queues s
      → (check (ledger_backend replies) l ctx req s).0
        ≡ (poll_loop (ledger_backend replies) l req ctx.polls ctx.ending (waiting s)).0
  unfolding check first_try at_cap enter_backlog acquire_backlog_slot wait_in_backlog
      poll_until_allowed_or_deadline
  check-poll_loop ctx s q = ground arith

  -- A queued request is let through, as QUEUE and with its slot, by the first poll that the store
  -- grants before the deadline.
  pub check-Queues :
      (ctx : Context) (s : Ledger) (k : ℕ) (token : String)
      → Queues s
      → k < ctx.polls
      → ((j : ℕ) → j < k → Refuses (poll (suc (suc s.calls) + j)))
      → Grants (poll (suc (suc s.calls) + k)) token
      → (check (ledger_backend replies) l ctx req s).0 ≡ returned (holding queue req.key token) none
  check-Queues ctx s k token q h before now =
      check-poll_loop ctx s q
      ∙ poll_loop-Grants k ctx.polls ctx.ending (waiting s) (suc (suc s.calls)) token refl h before
          now

  -- A queued request that no poll lets through by the deadline is rejected with a 429.
  pub check_times_out :
      (ctx : Context) (s : Ledger)
      → Queues s
      → ctx.ending ≡ deadline
      → ((j : ℕ) → j < ctx.polls → Refuses (poll (suc (suc s.calls) + j)))
      → (check (ledger_backend replies) l ctx req s).0 ≡ returned (too_many l) none
  check_times_out ctx s q end before =
      check-poll_loop ctx s q
      ∙ rw end (poll_loop-times_out ctx.polls (waiting s) (suc (suc s.calls)) refl before)
