-- ===== src/Sidecar/Admin/Gate.antt =====
-- Who gets through to the core's dynamic limits (services/sidecar/admin/admin.go).
use rate_cap.Prelude.{
  ℕ, String, some, ◌≡◌, ◌≢◌, ◌⊎◌, inl, inr, ◌==◌, eq_iff, Bool-cases, Option-cases, arith,
}
use rate_cap.Sidecar.Http.{Core}
use rate_cap.Sidecar.Admin.{
  SetLimitBody, AdminRequest, error_status, serve_http, set_limit, after_set,
}

module _ (c : Core) (secret : String) (r : AdminRequest) (s : c.State) where
  -- The request is a POST with the secret, and the secret is set.
  abbrev Authorised : Type 0
  Authorised = (r.method ≡ "POST") × (secret ≢ "") × (r.provided ≡ secret)

  -- Either the core is left alone and an error is answered, or the request carried the admin
  -- secret, which is set, and the core ran the one call for its body.
  pub serve_http-Authorised :
      ((code : ℕ) × (serve_http c secret r s ≡ (error_status code, s)))
      ⊎ (Authorised
          × (body : SetLimitBody) × (r.body ≡ some body)
          × ((serve_http c secret r s).1 ≡ (c.set_dynamic_limit body.tier body.value s).1))
  unfolding serve_http set_limit after_set
  serve_http-Authorised = elim (Bool-cases (r.method == "POST")) [
    | inr e ↦ inl (405, ground arith)
    | inl m ↦ elim (Bool-cases (secret == "")) [
      | inl e ↦ inl (503, ground arith)
      | inr n ↦ elim (Bool-cases (r.provided == "")) [
        | inl e ↦ inl (401, ground arith)
        | inr p ↦ elim (Bool-cases (r.provided == secret)) [
          | inr e ↦ inl (401, ground arith)
          | inl q ↦ elim (Option-cases r.body) [
            | inl e ↦ inl (400, ground arith)
            | inr (body, e) ↦ inr (
              (
                (eq_iff r.method "POST").0 m,
                ground (arith, eq_iff secret ""),
                (eq_iff r.provided secret).0 q,
              ),
              body,
              e,
              ground arith,
            )
          ]
        ]
      ]
    ]
  ]
