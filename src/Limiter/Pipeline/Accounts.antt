-- ===== src/Limiter/Pipeline/Accounts.antt =====
-- What a request costs when it goes through all three tiers: the slots that it holds, the tiers
-- that it reaches, and whether it can panic (services/core/limiter/pipeline.go).
use mathlib.Core.List.{Perm, append_assoc, perm_append_comm}
use mathlib.Core.List.Perm
use rate_cap.Prelude.{
  String, true, false, List, [], ◌∷◌, ◌++◌, Option, none, is_some, if◌then◌else◌, ◌≡◌, ◌≢◌, refl,
  subst, inl, inr, Bool-cases, Option-cases, ◌==◌, ◌||◌, arith, All,
}
use rate_cap.Prelude.Int.{pos, leb_ℤ}
use rate_cap.Limiter.{
  Action, allow, queue, shadow_log, TokenReservation, Decision, no_decision, Request, Context,
  Checked, returned, panicked, Backend, Error,
}
use rate_cap.Limiter.TokenBucket
use rate_cap.Limiter.TokenBucket.Laws.{answer}
use rate_cap.Limiter.Concurrency
use rate_cap.Limiter.Concurrency.{milliseconds}
use rate_cap.Limiter.Concurrency.Panics.{check-panicked}
use rate_cap.Limiter.Concurrency.Ledger.{Answers, Ledger, ledger_backend, reservations_of}
use rate_cap.Limiter.Concurrency.Ledger
use rate_cap.Limiter.Fleet
use rate_cap.Limiter.Fleet.Laws
use rate_cap.Limiter.Pipeline.{
  Tier, Tiers, new_pipeline, stops, is_queue, check, check_from, after_tier,
}

module _ {S : Type 0} where
  -- A tier that never panics.
  abbrev pub Safe : Tier S → Type 0
  Safe tier = (ctx : Context) (req : Request) (s : S) → (tier ctx req s).0 ≢ panicked

  after_tier-Safe :
      (next : List TokenReservation → String → Action → S → Checked × S)
      (reserved : List TokenReservation) (t : String) (a : Action) (p : Checked × S)
      → ((reserved' : List TokenReservation) (t' : String) (a' : Action) (s : S)
          → (next reserved' t' a' s).0 ≢ panicked)
      → p.0 ≢ panicked
      → (after_tier next reserved t a p).0 ≢ panicked
  unfolding after_tier
  after_tier-Safe next reserved t a (panicked, s) ih h = λ e. h refl
  after_tier-Safe next reserved t a (returned d err, s) ih h = ground (
    arith,
    ih (reserved ++ d.reservations) (if d.tier == "" then t else d.tier)
        (if is_queue d.action then queue else a) s,
  )

  check_from-Safe :
      (tiers : List (Tier S)) (reserved : List TokenReservation) (t : String) (a : Action)
      (ctx : Context) (req : Request) (s : S)
      → All Safe tiers
      → (check_from tiers reserved t a ctx req s).0 ≢ panicked
  unfolding check_from
  check_from-Safe [] reserved t a ctx req s h = λ e. cc
  check_from-Safe (tier ∷ tiers) reserved t a ctx req s h =
      after_tier-Safe (λ reserved' t' a' s'. check_from tiers reserved' t' a' ctx req s') reserved t
        a (tier ctx req s)
        (λ reserved' t' a' s'. check_from-Safe tiers reserved' t' a' ctx req s' h.1) (h.0 ctx req s)

module _ (b : Backend) (t : Tiers) where
  TokenBucket-Safe : Safe {S = b.State} (λ ctx req s. TokenBucket.check b t.rate_limiter req s)
  TokenBucket-Safe ctx req s = unfold TokenBucket.check in ground arith

  Fleet-Safe : Safe {S = b.State} (λ ctx req s. Fleet.check b t.fleet_shedder req s)
  Fleet-Safe ctx req s = unfold Fleet.check in ground arith

  -- The pipeline of the three tiers panics at most where Tier 2 queues with a poll interval that
  -- is not positive.
  pub check-ne-panicked :
      (ctx : Context) (req : Request) (s : b.State)
      → (t.concurrency_limiter.queueing_enabled ≡ true
          → leb_ℤ (milliseconds t.concurrency_limiter.poll_interval_ms) (pos 0) ≡ false)
      → (check (new_pipeline b t) ctx req s).0 ≢ panicked
  unfolding check
  check-ne-panicked ctx req s h = check_from-Safe (new_pipeline b t) [] "" allow ctx req s (
    TokenBucket-Safe,
    (
      (λ ctx' req' s' e.
          let p = check-panicked b t.concurrency_limiter req' ctx' s' e in ground (arith, h p.0)),
      (Fleet-Safe, tt),
    ),
  )

-- A tier that holds what its decision lists.
abbrev pub Fair : Tier Ledger → Type 0
Fair tier =
    (ctx : Context) (req : Request) (s : Ledger)
    → (tier ctx req s).1.held ≡ reservations_of (tier ctx req s).0 ++ s.held

-- After a run that began with `base` on the ledger.
abbrev Accounted : List TokenReservation → Checked × Ledger → Type 0
Accounted base (panicked, s) = Unit {0}
Accounted base (returned d err, s) = Perm s.held (d.reservations ++ base)

regroup :
    (base reserved new before after : List TokenReservation)
    → Perm before (reserved ++ base)
    → after ≡ new ++ before
    → Perm after ((reserved ++ new) ++ base)
regroup base reserved new before after p e = rw e (
    Perm.trans (Perm.append_left new p) (
      rw (← append_assoc new reserved base)
        (Perm.append_right base (perm_append_comm new reserved))))

after_tier-Accounted :
    (base : List TokenReservation)
    (next : List TokenReservation → String → Action → Ledger → Checked × Ledger)
    (reserved : List TokenReservation) (t : String) (a : Action) (s : Ledger) (p : Checked × Ledger)
    → ((reserved' : List TokenReservation) (t' : String) (a' : Action) (s : Ledger)
        → Perm s.held (reserved' ++ base)
        → Accounted base (next reserved' t' a' s))
    → Perm s.held (reserved ++ base)
    → p.1.held ≡ reservations_of p.0 ++ s.held
    → Accounted base (after_tier next reserved t a p)
unfolding after_tier
after_tier-Accounted base next reserved t a s (panicked, s') ih h e = tt
after_tier-Accounted base next reserved t a s (returned d err, s') ih h e =
    elim (Bool-cases (is_some err || stops d.action)) [
      | inl stop ↦ rw (stop, after_tier) (regroup base reserved d.reservations s.held s'.held h e)
      | inr go ↦
          rw (go, after_tier)
            (ih _ _ _ s' (regroup base reserved d.reservations s.held s'.held h e))
    ]

check_from-Accounted :
    (base : List TokenReservation) (tiers : List (Tier Ledger)) (reserved : List TokenReservation)
    (t : String) (a : Action) (ctx : Context) (req : Request) (s : Ledger)
    → All Fair tiers
    → Perm s.held (reserved ++ base)
    → Accounted base (check_from tiers reserved t a ctx req s)
unfolding check_from
check_from-Accounted base [] reserved t a ctx req s fair h = h
check_from-Accounted base (tier ∷ tiers) reserved t a ctx req s fair h =
    after_tier-Accounted base (λ reserved' t' a' s'. check_from tiers reserved' t' a' ctx req s')
      reserved t a s (tier ctx req s)
      (λ reserved' t' a' s'. check_from-Accounted base tiers reserved' t' a' ctx req s' fair.1) h
      (fair.0 ctx req s)

module _ (replies : Answers) (t : Tiers) where
  TokenBucket-Fair :
      Fair (λ ctx req s. TokenBucket.check (ledger_backend replies) t.rate_limiter req s)
  TokenBucket-Fair ctx req s = unfold TokenBucket.check in ground arith

  -- With Tiers 2 and 3 outside shadow mode, over a store whose releases succeed and whose failed
  -- acquires take no slot, whatever it answers otherwise and whichever tier ends the run, the
  -- slots held afterwards are those held before and those that the decision lists.
  pub check-Accounted :
      (ctx : Context) (req : Request) (s : Ledger) (d : Decision) (err : Option Error)
      → t.concurrency_limiter.shadow_mode ≡ false
      → t.fleet_shedder.shadow_mode ≡ false
      → (check (new_pipeline (ledger_backend replies) t) ctx req s).0 ≡ returned d err
      → Perm
          (check (new_pipeline (ledger_backend replies) t) ctx req s).1.held
          (d.reservations ++ s.held)
  unfolding check
  check-Accounted ctx req s d err live2 live3 e =
      subst
        (λ r. Accounted s.held (r, (check (new_pipeline (ledger_backend replies) t) ctx req s).1)) e
        (check_from-Accounted s.held (new_pipeline (ledger_backend replies) t) [] "" allow ctx req s
          (
            TokenBucket-Fair,
            (
              (λ ctx' req' s'.
                  (Ledger.check-Balanced replies t.concurrency_limiter req' ctx' s' live2).0),
              ((λ ctx' req' s'. Laws.check-Balanced replies t.fleet_shedder req' s' live3), tt),
            ),
          )
          (Perm.refl s.held))

module _ (b : Backend) (t : Tiers) (ctx : Context) (req : Request) (s : b.State) where
  -- In shadow mode of Tier 1 a request over the rate is let through as SHADOW_LOG before Tiers 2
  -- and 3 have seen it: only the call of Tier 1 touches the store, and no slot is taken.
  pub check_shadow_skips :
      t.rate_limiter.shadow_mode ≡ true
      → (answer b t.rate_limiter req s).err ≡ none
      → (answer b t.rate_limiter req s).allowed ≡ false
      → (d : Decision) × (check (new_pipeline b t) ctx req s
          ≡ (returned d none, (TokenBucket.check b t.rate_limiter req s).1))
        × (d.action ≡ shadow_log)
        × (d.reservations ≡ [])
  unfolding check check_from after_tier TokenBucket.check
  check_shadow_skips shadow e a = (
    record no_decision {
      action = shadow_log;
      retry_after_ms = (answer b t.rate_limiter req s).retry_after_ms;
      tier = "rate_limiter";
      limit = t.rate_limiter.burst;
      remaining = (answer b t.rate_limiter req s).remaining;
    },
    ground arith,
    refl,
    refl,
  )

  -- A request that skips reservations reaches the store through Tier 1 alone, and holds no slot.
  pub check_skips_reservations :
      req.skip_reservations ≡ true
      → (d : Decision) × (check (new_pipeline b t) ctx req s
          ≡ (returned d none, (TokenBucket.check b t.rate_limiter req s).1))
        × (d.reservations ≡ [])
  unfolding check check_from after_tier TokenBucket.check TokenBucket.decide Concurrency.check
      Fleet.check
  check_skips_reservations skip = elim (Option-cases (answer b t.rate_limiter req s).err) [
    | inl e ↦ elim (Bool-cases (answer b t.rate_limiter req s).allowed) [
      | inl a ↦ (record no_decision { tier = "rate_limiter" }, simp (e, a, skip) refl, refl)
      | inr a ↦ (
        TokenBucket.decide t.rate_limiter (answer b t.rate_limiter req s),
        ground arith,
        ground arith,
      )
    ]
    | inr (m, e) ↦ (record no_decision { tier = "rate_limiter" }, ground arith, refl)
  ]
