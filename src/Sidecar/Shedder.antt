-- ===== src/Sidecar/Shedder.antt =====
-- services/sidecar/worker/shedder.go: Tier 4. `rand.Float64()` is a parameter, the number `draw` of
-- the 2^53 that it chooses from, and the quotients of floats are compared as exact fractions.
pub mod Interleaving
use rate_cap.Prelude.{ℕ, Bool, true, false, ◌^◌, if◌then◌else◌}
use rate_cap.Prelude.Int.{ℤ, pos, negsuc, ◌+ℤ◌, ◌-ℤ◌, ◌*ℤ◌, ltb_ℤ, leb_ℤ, quot, wrap64}

-- The fields that no method changes; `inflight` is passed on its own.
pub record Shedder : Type 0 where
  pub max : ℤ
  pub ramp_start_pct : ℤ

abbrev pub new_shedder_with_ramp : ℤ → ℤ → Shedder
new_shedder_with_ramp max ramp_start_pct = record { max = max; ramp_start_pct = ramp_start_pct }

abbrev pub new_shedder : ℤ → Shedder
new_shedder max = new_shedder_with_ramp max (pos 100)

unfoldable pub should_admit_at_load : Shedder → ℕ → ℤ → Bool
should_admit_at_load s draw current =
    let ramp_start = quot (wrap64 (s.max *ℤ s.ramp_start_pct)) 100 in
    let ramp_window = wrap64 (s.max -ℤ ramp_start) in
    let into_ramp = wrap64 (current -ℤ ramp_start) in
    if ltb_ℤ current ramp_start
    then true
    else (if leb_ℤ ramp_window (pos 0)
        then false
        else leb_ℤ (into_ramp *ℤ pos (2 ^ 53)) (pos draw *ℤ ramp_window))

-- The two guards of a round of the loop of `Allow`, on the value that it loaded.
unfoldable pub admits : Shedder → ℕ → ℤ → Bool
admits s draw current = if leb_ℤ s.max current then false else should_admit_at_load s draw current

-- `Allow` and `Release` where no other goroutine runs in between: the swap succeeds at once.
unfoldable pub allow : Shedder → ℕ → ℤ → Bool × ℤ
allow s draw inflight =
    if admits s draw inflight then (true, wrap64 (inflight +ℤ pos 1)) else (false, inflight)

unfoldable pub release : ℤ → ℤ
release inflight = wrap64 (inflight +ℤ negsuc 0)
