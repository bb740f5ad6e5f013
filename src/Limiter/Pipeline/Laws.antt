-- ===== src/Limiter/Pipeline/Laws.antt =====
-- The pipeline against a description of it by the list of outcomes of the tiers that it consults
-- (services/core/limiter/pipeline.go).
use mathlib.Core.List.{append_assoc, append-nil}
use rate_cap.Prelude.{
  String, Bool, true, false, ◌||◌, List, [], ◌∷◌, ◌++◌, Option, none, some, if◌then◌else◌, is_some,
  ◌==◌, ◌≡◌, refl, arith,
}
use rate_cap.Limiter.{
  Action, allow, reject_429, reject_503, shadow_log, queue, TokenReservation, no_decision, Request,
  Context, Checked, returned, panicked,
}
use rate_cap.Limiter.Pipeline.{Tier, stops, is_queue, check, check_from, after_tier}

-- A request that is rejected, or over a limit in shadow mode, does not reach the next tier.
abbrev pub ends : Action → Bool
ends allow = false
ends reject_429 = true
ends reject_503 = true
ends shadow_log = true
ends queue = false

stops-ends : (a : Action) → stops a ≡ ends a
stops-ends allow = refl
stops-ends reject_429 = refl
stops-ends reject_503 = refl
stops-ends shadow_log = refl
stops-ends queue = refl

abbrev waited : Action → Bool
waited allow = false
waited reject_429 = false
waited reject_503 = false
waited shadow_log = false
waited queue = true

is_queue-waited : (a : Action) → is_queue a ≡ waited a
is_queue-waited allow = refl
is_queue-waited reject_429 = refl
is_queue-waited reject_503 = refl
is_queue-waited shadow_log = refl
is_queue-waited queue = refl

-- The outcome lets the request go on to the next tier.
abbrev pub goes_on : Checked → Bool
goes_on (returned d err) = if is_some err || ends d.action then false else true
goes_on panicked = false

abbrev reservations_of : Checked → List TokenReservation
reservations_of (returned d err) = d.reservations
reservations_of panicked = []

abbrev pub all_reservations : List Checked → List TokenReservation
all_reservations [] = []
all_reservations (r ∷ rs) = reservations_of r ++ all_reservations rs

abbrev queued : Checked → Bool
queued (returned d err) = waited d.action
queued panicked = false

abbrev pub any_queued : List Checked → Bool
any_queued [] = false
any_queued (r ∷ rs) = queued r || any_queued rs

abbrev tier_of : Checked → String → String
tier_of (returned d err) t = if d.tier == "" then t else d.tier
tier_of panicked t = t

-- The last tier that gives its name, and `t` if none does.
abbrev pub last_named : String → List Checked → String
last_named t [] = t
last_named t (r ∷ rs) = last_named (tier_of r t) rs

-- The outcome that ended the run, if one did.
abbrev pub stopper : List Checked → Option Checked
stopper [] = none
stopper (r ∷ rs) = if goes_on r then stopper rs else some r

abbrev conclude : List TokenReservation → String → Action → Option Checked → Checked
conclude reserved tier action none =
    returned (record no_decision { action = action; reservations = reserved; tier = tier }) none
conclude reserved tier action (some panicked) = panicked
conclude reserved tier action (some (returned d err)) =
    returned (record d { reservations = reserved }) err

-- The decision for a list of outcomes: that of the tier that stopped the run, or else ALLOW, or
-- QUEUE if some tier queued, in each case with the reservations of all tiers that were consulted.
abbrev pub outcome : List Checked → Checked
outcome rs =
    conclude (all_reservations rs) (last_named "" rs) (if any_queued rs then queue else allow)
      (stopper rs)

module _ {S : Type 0} where
  note_outcome : (S → List Checked × S) → Checked × S → List Checked × S
  note_outcome next (r, s) =
      let rest = next s in if goes_on r then (r ∷ rest.0, rest.1) else (r ∷ [], s)

  -- The outcomes of the tiers up to the first that does not go on, and the state after them.
  pub consulted : List (Tier S) → Context → Request → S → List Checked × S
  unfolding note_outcome
  consulted [] ctx req s = ([], s)
  consulted (tier ∷ tiers) ctx req s = note_outcome (consulted tiers ctx req) (tier ctx req s)

  -- What the loop makes of the outcomes `rs` from its variables on.
  abbrev concluded : List TokenReservation → String → Action → List Checked × S → Checked × S
  concluded reserved t a (rs, s) = (
    conclude (reserved ++ all_reservations rs) (last_named t rs)
        (if any_queued rs then queue else a) (stopper rs),
    s,
  )

  after_tier-concluded :
      (next : List TokenReservation → String → Action → S → Checked × S)
      (trace : S → List Checked × S) (reserved : List TokenReservation) (t : String) (a : Action)
      (p : Checked × S)
      → ((reserved' : List TokenReservation) (t' : String) (a' : Action) (s : S)
          → next reserved' t' a' s ≡ concluded reserved' t' a' (trace s))
      → after_tier next reserved t a p ≡ concluded reserved t a (note_outcome trace p)
  unfolding after_tier note_outcome
  after_tier-concluded next trace reserved t a (panicked, s) ih = refl
  after_tier-concluded next trace reserved t a (returned d (some m), s) ih =
      ground (arith, append-nil d.reservations, stops-ends d.action, is_queue-waited d.action)
  after_tier-concluded next trace reserved t a (returned d none, s) ih = ground (
    arith,
    stops-ends d.action,
    is_queue-waited d.action,
    append-nil d.reservations,
    append_assoc reserved d.reservations (all_reservations (trace s).0),
    ih (reserved ++ d.reservations) (if d.tier == "" then t else d.tier)
        (if is_queue d.action then queue else a) s,
  )

  check_from_lem :
      (tiers : List (Tier S)) (reserved : List TokenReservation) (t : String) (a : Action)
      (ctx : Context) (req : Request) (s : S)
      → check_from tiers reserved t a ctx req s ≡ concluded reserved t a (consulted tiers ctx req s)
  unfolding check_from consulted
  check_from_lem [] reserved t a ctx req s = ground (arith, append-nil reserved)
  check_from_lem (tier ∷ tiers) reserved t a ctx req s =
      after_tier-concluded (λ reserved' t' a' s'. check_from tiers reserved' t' a' ctx req s')
        (consulted tiers ctx req) reserved t a (tier ctx req s)
        (λ reserved' t' a' s'. check_from_lem tiers reserved' t' a' ctx req s')

  -- The pipeline consults the tiers in order up to the first that errs, panics, rejects or logs
  -- in shadow mode, leaves the state that this tier left, and concludes as `outcome` says.
  pub check-outcome :
      (tiers : List (Tier S)) (ctx : Context) (req : Request) (s : S)
      → let (rs, s') = consulted tiers ctx req s in check tiers ctx req s ≡ (outcome rs, s')
  unfolding check
  check-outcome tiers ctx req s = check_from_lem tiers [] "" allow ctx req s
