-- ===== src/Limiter/Fleet.antt =====
-- services/core/limiter/fleetshedder.go: Tier 3, one cap for the whole fleet, of which a share is
-- kept for critical requests.
pub mod Laws
use rate_cap.Prelude.{
  String, Bool, true, false, ◌||◌, List, [], ◌∷◌, Option, none, some, if◌then◌else◌,
}
use rate_cap.Prelude.Int.{ℤ, pos, ◌-ℤ◌, ◌*ℤ◌, ltb_ℤ, quot, wrap64}
use rate_cap.Limiter.{
  Action, allow, reject_503, shadow_log, Priority, sheddable, critical, TokenReservation, Decision,
  no_decision, Request, Error, Checked, returned, SlotReply, Backend,
}
use rate_cap.Limiter.Concurrency.{unbounded_cap}

abbrev pub fleet_key : String
fleet_key = "fleet"

pub record FleetShedder : Type 0 where
  pub cap : ℤ
  pub reserved_critical_pct : ℤ
  pub max_duration_ms : ℤ
  pub shadow_mode : Bool

abbrev pub new_fleet_shedder : ℤ → ℤ → ℤ → Bool → FleetShedder
new_fleet_shedder cap pct max_duration shadow = record {
  cap = cap;
  reserved_critical_pct = pct;
  max_duration_ms = max_duration;
  shadow_mode = shadow;
}

unfoldable pub reconfigure : ℤ → ℤ → ℤ → Bool → FleetShedder → FleetShedder
reconfigure cap pct max_duration shadow l = record l {
  cap = cap;
  reserved_critical_pct = pct;
  max_duration_ms = max_duration;
  shadow_mode = shadow;
}

-- The shedder after the call, `previous`, and whether the percentage was refused.
unfoldable pub set_reserved_critical_pct : ℤ → FleetShedder → FleetShedder × ℤ × Option Error
set_reserved_critical_pct pct l =
    if ltb_ℤ pct (pos 0) || ltb_ℤ (pos 100) pct
    then (l, pos 0, some "reserved_critical_pct must be between 0 and 100 inclusive")
    else (record l { reserved_critical_pct = pct }, l.reserved_critical_pct, none)

-- `cap * (100 - pct) / 100` in int, for a request that is not critical.
unfoldable pub effective_cap : FleetShedder → Priority → ℤ
effective_cap l critical = l.cap
effective_cap l sheddable = quot (wrap64 (l.cap *ℤ wrap64 (pos 100 -ℤ l.reserved_critical_pct))) 100

abbrev pub holding : Action → String → Decision
holding action token = record no_decision {
  action = action;
  reservations = record { key = fleet_key; token = token } ∷ [];
  tier = "fleet_shedder";
}

module _ (b : Backend) where
  open b use {State, incr_concurrent}

  shadow_slot : Option Error → SlotReply → State → Checked × State
  shadow_slot (some e) r s = (returned no_decision (some e), s)
  shadow_slot none r s = (returned (holding shadow_log r.token) none, s)

  first_try : FleetShedder → Option Error → SlotReply → State → Checked × State
  unfolding shadow_slot
  first_try l (some e) r s = (returned no_decision (some e), s)
  first_try l none r s =
      if r.allowed
      then (returned (holding allow r.token) none, s)
      else (if l.shadow_mode
          then (let (r', s') = incr_concurrent fleet_key unbounded_cap l.max_duration_ms s in
              shadow_slot r'.err r' s')
          else (
            returned (record no_decision { action = reject_503; tier = "fleet_shedder" }) none,
            s,
          ))

  unfoldable pub check : FleetShedder → Request → State → Checked × State
  unfolding first_try
  check l req s =
      if req.skip_reservations
      then (returned no_decision none, s)
      else (let (r, s') =
            incr_concurrent fleet_key (effective_cap l req.priority) l.max_duration_ms s in
          first_try l r.err r s')
