-- ===== src/Process/SidecarMain/Bounds.antt =====
-- The sidecar starts with sound numbers, whatever its environment says
-- (services/sidecar/main.go).
use rate_cap.Prelude.{
  ℕ, zero, suc, refl, subst, ◌<◌, ◌^◌, String, true, false, none, some, Option, ◌≡◌, ◌==◌,
  Option-cases, Bool-cases, inl, inr, arith,
}
use rate_cap.Prelude.Int.{ℤ, pos, negsuc, ◌≤ℤ◌, two_63}
use rate_cap.Sidecar.Http.{parse_int}
use rate_cap.Sidecar.Http.Numbers.{Fits, parse_int-Fits}
use rate_cap.Process.Environment.{running, is_set}
use rate_cap.Process.SidecarMain.{
  Outside, Plan, start, load_routes, watched, resolve_max_inflight, positive_or, percent_or,
  resolve_ramp_start_pct, resolve_max_rps, max_rps_or, is_le_zero, fraction, Float64,
}

abbrev pub Positive64 : ℤ → Type 0
Positive64 x = (n : ℕ) × (x ≡ pos n) × (0 < n) × (n < two_63)

-- A value from 1 to 2 ^ 63 - 1, and one from 1 to 100.
positive_or-Positive64 :
    (d : ℤ) (o : Option ℤ) → Positive64 d → Fits two_63 o → Positive64 (positive_or d o)
unfolding positive_or
positive_or-Positive64 d none p f = p
positive_or-Positive64 d (some (pos zero)) p f = p
positive_or-Positive64 d (some (pos (suc n))) p f = (suc n, ground arith, omega arith, f)
positive_or-Positive64 d (some (negsuc n)) p f = p

resolve_max_inflight-Positive64 :
    (raw : String) (d : ℤ) → Positive64 d → Positive64 (resolve_max_inflight raw d)
unfolding resolve_max_inflight
resolve_max_inflight-Positive64 raw d p = elim (Bool-cases (raw == "")) [
  | inl e ↦ rw e p
  | inr e ↦ rw e (
      positive_or-Positive64 d (parse_int (2 ^ 63) raw) p
        (parse_int-Fits (2 ^ 63) raw (omega arith)))
]

abbrev pub Percent : ℤ → Type 0
Percent x = (pos 1 ≤ℤ x) × (x ≤ℤ pos 100)

percent_or-Percent : (d : ℤ) (o : Option ℤ) → Percent d → Percent (percent_or d o)
unfolding percent_or
percent_or-Percent d none p = p
percent_or-Percent d (some (pos n)) p = ground arith
percent_or-Percent d (some (negsuc n)) p = p

resolve_ramp_start_pct-Percent :
    (raw : String) (d : ℤ) → Percent d → Percent (resolve_ramp_start_pct raw d)
unfolding resolve_ramp_start_pct
resolve_ramp_start_pct-Percent raw d p = elim (Bool-cases (raw == "")) [
  | inl e ↦ rw e p
  | inr e ↦ rw e (percent_or-Percent d (parse_int (2 ^ 63) raw) p)
]

resolve_max_rps-positive :
    (parse_float : String → Option Float64) (raw : String) (d : Float64)
    → is_le_zero d ≡ false
    → is_le_zero (resolve_max_rps parse_float raw d) ≡ false
unfolding resolve_max_rps max_rps_or
resolve_max_rps-positive parse_float raw d p = elim (Option-cases (parse_float raw)) [
  | inl e ↦ ground arith
  | inr (x, e) ↦ elim (Bool-cases (is_le_zero x)) [ inl f ↦ ground arith | inr f ↦ ground arith ]
]

module _ (o : Outside) (plan : Plan) (started : start o ≡ running plan) where
  secret_set : is_set plan.secret ≡ true
  unfolding start load_routes watched
  secret_set = ground arith

  max_resolved :
      resolve_max_inflight (o.getenv "RATECAP_MAX_INFLIGHT_REQUESTS") (pos 500) ≡ plan.shedder.max
  unfolding start load_routes watched
  max_resolved = ground arith

  ramp_resolved :
      resolve_ramp_start_pct (o.getenv "RATECAP_SHED_RAMP_START_PCT") (pos 100)
      ≡ plan.shedder.ramp_start_pct
  unfolding start load_routes watched
  ramp_resolved = ground arith

  rps_resolved :
      resolve_max_rps o.parse_float (o.getenv "RATECAP_SIDECAR_MAX_RPS") (fraction (pos 1000) 1)
      ≡ plan.max_rps
  unfolding start load_routes watched
  rps_resolved = ground arith

  tls_resolved : plan.mutual_tls ≡ is_set (o.getenv "RATECAP_TLS_CERT_PATH")
  unfolding start load_routes watched
  tls_resolved = ground arith

-- Whatever the environment says, a sidecar that starts has the shared secret, a cap on the requests
-- in flight from 1 to 2 ^ 63 - 1, a ramp that starts at 1 to 100 percent, and no rate that is 0 or
-- less; it talks TLS exactly if the path of a certificate is set.
pub start-bounds :
    (o : Outside) (plan : Plan)
    → start o ≡ running plan
    → (is_set plan.secret ≡ true)
      × Positive64 plan.shedder.max
      × Percent plan.shedder.ramp_start_pct
      × (is_le_zero plan.max_rps ≡ false)
      × (plan.mutual_tls ≡ is_set (o.getenv "RATECAP_TLS_CERT_PATH"))
start-bounds o plan h = (
  secret_set o plan h,
  subst Positive64 (max_resolved o plan h) (
      resolve_max_inflight-Positive64 (o.getenv "RATECAP_MAX_INFLIGHT_REQUESTS") (pos 500)
        (500, refl, omega arith, omega arith)),
  subst Percent (ramp_resolved o plan h) (
      resolve_ramp_start_pct-Percent (o.getenv "RATECAP_SHED_RAMP_START_PCT") (pos 100)
        (omega arith)),
  subst (λ x. is_le_zero x ≡ false) (rps_resolved o plan h)
      (resolve_max_rps-positive o.parse_float (o.getenv "RATECAP_SIDECAR_MAX_RPS")
        (fraction (pos 1000) 1) refl),
  tls_resolved o plan h,
)
