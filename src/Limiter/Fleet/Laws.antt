-- ===== src/Limiter/Fleet/Laws.antt =====
-- The share of the fleet's cap that Tier 3 keeps for critical requests
-- (services/core/limiter/fleetshedder.go), and the slots that it takes.
use rate_cap.Prelude.{
  ℕ, ◌+◌, ◌-◌, ◌*◌, ◌/◌, ◌≤◌, ◌<◌, false, ◌++◌, none, ◌≡◌, ◌≢◌, refl, ap, ◌⊎◌, inr, arith,
}
use rate_cap.Prelude.Int.{ℤ, pos, ◌≤ℤ◌, negsuc, wrap64_fits, two_63, sub_ℕ_le}
use rate_cap.Limiter.{sheddable, critical, Request}
use rate_cap.Limiter.Fleet.{FleetShedder, effective_cap, set_reserved_critical_pct, check}
use rate_cap.Limiter.Concurrency.Ledger.{Answers, Ledger, ledger_backend, reservations_of}

fits : (c q : ℕ) → q ≤ 100 → c * 100 < two_63 → c * q < two_63
fits c q h k = grind arith

-- What a request that is not critical may use, with numbers that int can hold.
pub effective_cap_lem :
    (l : FleetShedder) (c p : ℕ)
    → l.cap ≡ pos c
    → l.reserved_critical_pct ≡ pos p
    → p ≤ 100
    → c * 100 < two_63
    → effective_cap l sheddable ≡ pos (c * (100 - p) / 100)
unfolding effective_cap
effective_cap_lem l c p ec ep h k = rw (
  ec,
  ep,
  sub_ℕ_le 100 p h,
  wrap64_fits (100 - p) (omega arith),
  wrap64_fits (c * (100 - p)) (fits c (100 - p) (omega arith) k),
)

share : (c p q : ℕ) → q + p ≡ 100 → (c * q / 100 ≤ c) × (c * q / 100 * 100 + c * p ≤ c * 100)
share c p q h =
    let e : c * q + c * p ≡ c * 100 = omega (arith, ap (λ (t : ℕ). c * t) h) in
    (omega arith, omega arith)

-- A critical request has the whole cap. Of it, a request that is not critical may use no more
-- than leaves the reserved percentage free, where neither setting overflows int.
pub effective_cap_reserves :
    (l : FleetShedder) (c p : ℕ)
    → l.cap ≡ pos c
    → l.reserved_critical_pct ≡ pos p
    → p ≤ 100
    → c * 100 < two_63
    → (effective_cap l critical ≡ pos c)
      × (e : ℕ) × (effective_cap l sheddable ≡ pos e)
      × (e ≤ c)
      × (e * 100 + c * p ≤ c * 100)
      × (c * (100 - p) < e * 100 + 100)
effective_cap_reserves l c p ec ep h k = (
  unfold effective_cap in ec,
  c * (100 - p) / 100,
  effective_cap_lem l c p ec ep h k,
  (share c p (100 - p) (omega arith)).0,
  (share c p (100 - p) (omega arith)).1,
  omega arith,
)

-- `SetReservedCriticalPct` refuses exactly the percentages outside 0 to 100, and then changes
-- nothing; else it sets the percentage, returns the previous one, and touches no other field.
pub set_reserved_critical_pct_lem :
    (pct : ℤ) (l : FleetShedder)
    → let (l', previous, e) = set_reserved_critical_pct pct l in
      ((e ≡ none)
        × (pos 0 ≤ℤ pct)
        × (pct ≤ℤ pos 100)
        × (previous ≡ l.reserved_critical_pct)
        × (l' ≡ record l { reserved_critical_pct = pct }))
      ⊎ ((e ≢ none) × ¬ ((pos 0 ≤ℤ pct) × (pct ≤ℤ pos 100)) × (l' ≡ l))
unfolding set_reserved_critical_pct
set_reserved_critical_pct_lem (pos n) l = ground arith
set_reserved_critical_pct_lem (negsuc n) l = inr (λ e. cc, λ h. omega arith, refl)

module _ (replies : Answers) (l : FleetShedder) (req : Request) where
  -- Outside shadow mode the ledger grows by exactly the reservations of the decision.
  pub check-Balanced :
      (s : Ledger)
      → l.shadow_mode ≡ false
      → let (r, s') = check (ledger_backend replies) l req s in
        s'.held ≡ reservations_of r ++ s.held
  unfolding check
  check-Balanced s live = ground arith
