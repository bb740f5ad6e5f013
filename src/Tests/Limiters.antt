-- ===== src/Tests/Limiters.antt =====
-- The three tiers and the pipeline, on stores with fixed answers.
use mathlib.Core.List.{Perm}
use rate_cap.Prelude.{
  ℕ, zero, eqb, suc, ◌+◌, ◌-◌, ◌*◌, ◌≤◌, ◌<◌, String, true, false, [], ◌∷◌, ◌++◌, none, ◌≡◌, ◌⊎◌,
  refl, arith, if◌then◌else◌, ◌==◌,
}
use rate_cap.Prelude.Int.{pos, wrap64}
use rate_cap.Limiter.{
  BucketReply, allow, reject_429, reject_503, shadow_log, queue, sheddable, critical,
  TokenReservation, Decision, no_decision, Request, Context, deadline, returned, SlotReply, Backend,
}
use rate_cap.Limiter.TokenBucket
use rate_cap.Limiter.TokenBucket.{TokenBucketLimiter}
use rate_cap.Limiter.Concurrency
use rate_cap.Limiter.Concurrency.{ConcurrencyLimiter, holding, too_many, milliseconds}
use rate_cap.Limiter.Concurrency.Ledger.{
  Answers, Ledger, ledger_backend, check-Balanced, reservations_of,
}
use rate_cap.Limiter.Concurrency.Polling.{Refuses, poll, Queues, check-Queues}
use rate_cap.Limiter.Fleet.{FleetShedder, effective_cap, set_reserved_critical_pct}
use rate_cap.Limiter.Fleet.Laws.{effective_cap_reserves}
use rate_cap.Limiter.Pipeline.{Tiers, check, new_pipeline}
use rate_cap.Limiter.Pipeline.Laws.{outcome, consulted, check-outcome}
use rate_cap.Limiter.Pipeline.Accounts.{check-Accounted, check_shadow_skips}

abbrev yes : SlotReply
yes = record { allowed = true; token = "t"; err = none }

abbrev no : SlotReply
no = record { allowed = false; token = ""; err = none }

-- The key is full at the first call and at every poll but the second, and the backlog has room.
abbrev in_bucket : BucketReply
in_bucket = record { allowed = true; retry_after_ms = pos 0; remaining = pos 4; err = none }

abbrev replies : Answers
replies = record {
  bucket = λ n key. in_bucket;
  slot = λ n key cap. if key == "backlog:k" then yes else (if eqb n 3 then yes else no);
}

abbrev full : Answers
full = record replies { slot = λ n key cap. if key == "backlog:k" then yes else no }

abbrev req : Request
req = record { key = "k"; cost = pos 1; skip_reservations = false; priority = sheddable }

abbrev cheap : Request
cheap = record { key = "k"; cost = pos 1; skip_reservations = true; priority = sheddable }

abbrev ctx : Context
ctx = record { polls = 3; ending = deadline }

abbrev empty : Ledger
empty = record { calls = 0; held = [] }

abbrev tier1 : TokenBucketLimiter
tier1 = record { rate = pos 5; burst = pos 10; shadow_mode = false }

abbrev tier1_shadow : TokenBucketLimiter
tier1_shadow = record { rate = pos 5; burst = pos 10; shadow_mode = true }

abbrev tier2 : ConcurrencyLimiter
tier2 = record {
  cap = pos 1;
  max_duration_ms = pos 1000;
  shadow_mode = false;
  queueing_enabled = true;
  max_backlog = pos 2;
  max_queue_wait_ms = pos 50;
  poll_interval_ms = pos 10;
}

abbrev tier3 : FleetShedder
tier3 = record {
  cap = pos 30;
  reserved_critical_pct = pos 20;
  max_duration_ms = pos 1000;
  shadow_mode = false;
}

abbrev tiers : Tiers
tiers = record { rate_limiter = tier1; concurrency_limiter = tier2; fleet_shedder = tier3 }

abbrev shadowed : Tiers
shadowed = record {
  rate_limiter = tier1_shadow;
  concurrency_limiter = tier2;
  fleet_shedder = tier3;
}

check-Balanced_example :
    let p = Concurrency.check (ledger_backend replies) tier2 ctx req empty in
    (p.1.held ≡ reservations_of p.0 ++ [])
    × ((reservations_of p.0 ≡ [])
        ⊎ ((t : String) × (reservations_of p.0 ≡ record { key = "k"; token = t } ∷ [])))
check-Balanced_example = check-Balanced replies tier2 req ctx empty refl

joins : Queues replies tier2 req empty
unfolding wrap64
joins = record {
  reserves = refl;
  live = refl;
  queueing = refl;
  ticks = refl;
  at_cap = (refl, refl);
  slot = "t";
  in_backlog = (refl, refl, refl);
}

joins_full : Queues full tier2 req empty
unfolding wrap64
joins_full = record {
  reserves = refl;
  live = refl;
  queueing = refl;
  ticks = refl;
  at_cap = (refl, refl);
  slot = "t";
  in_backlog = (refl, refl, refl);
}

refuses_before : (j : ℕ) → j < 1 → Refuses (poll replies tier2 req (2 + j))
refuses_before zero h = (refl, refl)
refuses_before (suc j) h = absurd (omega (arith, h))

check-Queues_example :
    (Concurrency.check (ledger_backend replies) tier2 ctx req empty).0
    ≡ returned (holding queue "k" "t") none
check-Queues_example =
    check-Queues replies tier2 req ctx empty 1 "t" joins (omega arith) refuses_before
      (refl, refl, refl)

check-outcome_example :
    let (rs, s') = consulted (new_pipeline (ledger_backend replies) tiers) ctx req empty in
    check (new_pipeline (ledger_backend replies) tiers) ctx req empty ≡ (outcome rs, s')
check-outcome_example = check-outcome (new_pipeline (ledger_backend replies) tiers) ctx req empty

abbrev decided : Decision
decided = record no_decision {
  action = reject_503;
  reservations = record { key = "k"; token = "t" } ∷ [];
  tier = "fleet_shedder";
}

decides :
    (check (new_pipeline (ledger_backend replies) tiers) ctx req empty).0 ≡ returned decided none
unfolding check Concurrency.check TokenBucket.check wrap64 Concurrency.first_try Concurrency.at_cap
    Concurrency.enter_backlog Concurrency.acquire_backlog_slot Concurrency.wait_in_backlog
    Concurrency.poll_until_allowed_or_deadline Concurrency.poll_loop Concurrency.after_poll
    rate_cap.Limiter.Fleet.check
decides = refl

check-Accounted_example :
    Perm
      (check (new_pipeline (ledger_backend replies) tiers) ctx req empty).1.held
      (record { key = "k"; token = "t" } ∷ [])
check-Accounted_example = check-Accounted replies tiers ctx req empty decided none refl refl decides

-- A store whose bucket is empty.
abbrev drained : Backend
drained = record (ledger_backend replies) {
  check_and_decrement = λ k rate burst cost s.
      (record { allowed = false; retry_after_ms = pos 7; remaining = pos 0; err = none }, s);
}

check_shadow_skips_example :
    (d : Decision) × (check (new_pipeline drained shadowed) ctx req empty
      ≡ (returned d none, (TokenBucket.check drained tier1_shadow req empty).1))
    × (d.action ≡ shadow_log)
    × (d.reservations ≡ [])
check_shadow_skips_example = check_shadow_skips drained shadowed ctx req empty refl refl refl

effective_cap_reserves_example :
    (effective_cap tier3 critical ≡ pos 30)
    × (e : ℕ) × (effective_cap tier3 sheddable ≡ pos e)
    × (e ≤ 30)
    × (e * 100 + 30 * 20 ≤ 30 * 100)
    × (30 * (100 - 20) < e * 100 + 100)
effective_cap_reserves_example =
    effective_cap_reserves tier3 30 20 refl refl (omega arith) (omega arith)
