-- ===== src/Server/Admin.antt =====
-- What SetDynamicLimit changes, and how it is undone (services/core/grpcserver/server.go).
use rate_cap.Prelude.{
  ℕ, ◌≤◌, String, Bool, true, false, ◌||◌, ◌&&◌, if◌then◌else◌, ◌≡◌, refl, sym, ap, ◌∙◌, ◌==◌, inl,
  inr, Bool-cases, arith,
}
use rate_cap.Prelude.Int.{ℤ, pos, ◌≤ℤ◌, wrap32, ltb_ℤ, wrap32_fits, wrap32-fits, fits_int32}
use rate_cap.Config.Validity.{nonneg, within}
use rate_cap.Limiter.{Backend}
use rate_cap.Limiter.TokenBucket.{set_rate}
use rate_cap.Limiter.Fleet.{set_reserved_critical_pct}
use rate_cap.Proto.{SetDynamicLimitResponse}
use rate_cap.Server.{Rpc, reply, Server, set_dynamic_limit, set_pct, status, invalid_argument}

abbrev previous_of : Rpc SetDynamicLimitResponse → ℤ
previous_of (reply resp) = resp.previous_value
previous_of _ = pos 0

abbrev pub in_range : ℤ → Bool
in_range x = if ltb_ℤ x (pos 0) || ltb_ℤ (pos 100) x then false else true

-- The changes that the core accepts.
abbrev pub is_accepted : String → ℤ → Bool
is_accepted tier value = (tier == "rate_limiter") || ((tier == "fleet_shedder") && in_range value)

module _ (b : Backend) where
  abbrev with_rate : ℤ → Server b → Server b
  with_rate x s = record s {
    tiers = record s.tiers { rate_limiter = record s.tiers.rate_limiter { rate = x } };
  }

  abbrev with_pct : ℤ → Server b → Server b
  with_pct x s = record s {
    tiers = record s.tiers {
      fleet_shedder = record s.tiers.fleet_shedder { reserved_critical_pct = x };
    };
  }

  -- The reply to an accepted change, and what is set.
  abbrev accepted : String → ℤ → ℤ → Server b → Rpc SetDynamicLimitResponse × Server b
  accepted tier previous value s =
      (reply (record { tier = tier; previous_value = wrap32 previous; new_value = value }), s)

  rate_step :
      (tier : String) (value : ℤ) (s : Server b)
      → (tier == "rate_limiter") ≡ true
      → set_dynamic_limit b tier value s
        ≡ accepted tier s.tiers.rate_limiter.rate value (with_rate value s)
  unfolding set_dynamic_limit set_rate
  rate_step tier value s e = simp e refl

  pct_step :
      (tier : String) (value : ℤ) (s : Server b)
      → (tier == "rate_limiter") ≡ false
      → (tier == "fleet_shedder") ≡ true
      → in_range value ≡ true
      → set_dynamic_limit b tier value s
        ≡ accepted tier s.tiers.fleet_shedder.reserved_critical_pct value (with_pct value s)
  unfolding set_dynamic_limit set_pct set_reserved_critical_pct
  pct_step tier value s e f h = ground arith

  -- Any other request is refused, and nothing changes.
  refused_step :
      (tier : String) (value : ℤ) (s : Server b)
      → (tier == "rate_limiter") ≡ false
      → ((tier == "fleet_shedder") && in_range value) ≡ false
      → (m : String) × (set_dynamic_limit b tier value s ≡ (status invalid_argument m, s))
  unfolding set_dynamic_limit set_pct set_reserved_critical_pct
  refused_step tier value s e h = elim (Bool-cases (tier == "fleet_shedder")) [
    | inl f ↦ ("reserved_critical_pct must be between 0 and 100 inclusive", ground arith)
    | inr f ↦ ("tier must be \"rate_limiter\" or \"fleet_shedder\"", ground arith)
  ]

  -- A change that is accepted has a reply.
  pub set_dynamic_limit-accepted :
      (tier : String) (value : ℤ) (s : Server b)
      → is_accepted tier value ≡ true
      → (resp : SetDynamicLimitResponse) × ((set_dynamic_limit b tier value s).0 ≡ reply resp)
  set_dynamic_limit-accepted tier value s h = elim (Bool-cases (tier == "rate_limiter")) [
    | inl e ↦ (_, ap (λ x. x.0) (rate_step tier value s e))
    | inr e ↦
        (_, ap (λ x. x.0) (pct_step tier value s e (ground (arith, e, h)) (ground (arith, e, h))))
  ]

  -- Any other changes nothing.
  pub set_dynamic_limit-refused :
      (tier : String) (value : ℤ) (s : Server b)
      → is_accepted tier value ≡ false
      → (m : String) × (set_dynamic_limit b tier value s ≡ (status invalid_argument m, s))
  set_dynamic_limit-refused tier value s h =
      refused_step tier value s (ground (arith, h)) (ground (arith, h))

  -- An accepted change is undone by a second one to the previous value that its reply names, if the
  -- rate before it fits an int32 and the percentage before it is one from 0 to 100.
  pub set_dynamic_limit_undo :
      (tier : String) (value : ℤ) (s : Server b) (resp : SetDynamicLimitResponse) (p : ℕ)
      → fits_int32 s.tiers.rate_limiter.rate ≡ true
      → s.tiers.fleet_shedder.reserved_critical_pct ≡ pos p
      → p ≤ 100
      → (set_dynamic_limit b tier value s).0 ≡ reply resp
      → (set_dynamic_limit b tier resp.previous_value (set_dynamic_limit b tier value s).1).1 ≡ s
  set_dynamic_limit_undo tier value s resp p f g q h = elim (Bool-cases (tier == "rate_limiter")) [
    | inl r ↦
        let step = rate_step tier value s r in
        let prev : resp.previous_value ≡ s.tiers.rate_limiter.rate =
          sym (ap previous_of (sym (ap (λ x. x.0) step) ∙ h))
          ∙ wrap32-fits s.tiers.rate_limiter.rate f in
        ap (λ x. (set_dynamic_limit b tier resp.previous_value x.1).1) step
        ∙ ap (λ x. x.1) (rate_step tier resp.previous_value (with_rate value s) r)
        ∙ ap (λ x. with_rate x s) prev
    | inr r ↦ elim (Bool-cases ((tier == "fleet_shedder") && in_range value)) [
      | inr t ↦ absurd (ground (arith, sym (ap (λ x. x.0) (refused_step tier value s r t).1) ∙ h))
      | inl t ↦
          let pct = s.tiers.fleet_shedder.reserved_critical_pct in
          let step = pct_step tier value s r (ground arith) (ground arith) in
          let prev : resp.previous_value ≡ pos p =
            sym (ap previous_of (sym (ap (λ x. x.0) step) ∙ h))
            ∙ ap wrap32 g
            ∙ wrap32_fits p (omega (arith, q)) in
          ap (λ x. (set_dynamic_limit b tier resp.previous_value x.1).1) step
          ∙ ap (λ x. x.1)
              (pct_step tier resp.previous_value (with_pct value s) r (ground arith)
                (ap in_range prev ∙ ground (arith, q)))
          ∙ ap (λ x. with_pct x s) (prev ∙ sym g)
    ]
  ]

  -- Whatever is asked for, the percentage stays one from 0 to 100.
  pub set_dynamic_limit_pct :
      (tier : String) (value : ℤ) (s : Server b)
      → pos 0 ≤ℤ s.tiers.fleet_shedder.reserved_critical_pct
      → s.tiers.fleet_shedder.reserved_critical_pct ≤ℤ pos 100
      → let pct = (set_dynamic_limit b tier value s).1.tiers.fleet_shedder.reserved_critical_pct in
        (pos 0 ≤ℤ pct) × (pct ≤ℤ pos 100)
  unfolding set_dynamic_limit set_pct set_rate set_reserved_critical_pct
  set_dynamic_limit_pct tier value s l u = ground (arith, nonneg value, within value (pos 100))
