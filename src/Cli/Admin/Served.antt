-- ===== src/Cli/Admin/Served.antt =====
-- When `admin set-limit` succeeds at an endpoint that takes its request (cli/cmd/admin.go,
-- services/sidecar/admin/admin.go, services/core/grpcserver/server.go).
use rate_cap.Prelude.{
  ℕ, String, Bool, true, false, not, ◌&&◌, ◌==◌, eq_iff, ap, none, some, inl, inr, if◌then◌else◌,
  ◌≡◌, refl, [], ◌∷◌, ◌∙◌, eqb, Bool-cases, arith,
}
use rate_cap.Prelude.Int.{fits_int32}
use rate_cap.Limiter.{Backend, Context}
use rate_cap.Server.{Server, set_dynamic_limit}
use rate_cap.Server.Admin.{is_accepted, set_dynamic_limit-accepted, set_dynamic_limit-refused}
use rate_cap.Sidecar.Http.{Core}
use rate_cap.Sidecar.Admin
use rate_cap.Sidecar.Admin.{SetLimitBody, AdminResponse, error_status, json}
use rate_cap.Sdk.Transport.{core_of}
use rate_cap.Cli.Root.{run, write_all, write_all-one}
use rate_cap.Cli.Admin.{
  SetLimitFlags, Surroundings, secret_of, set_limit, after_marshal, after_request, after_post,
  after_read,
}
use rate_cap.Cli.Admin.Endpoint.{Json, reply_of, post_served, IsFaithful}

module _ (b : Backend) (ctx : Context) (mac : String → String → String) (signing_key : String)
    (admin_secret : String) (j : Json) (env : Surroundings) (f : SetLimitFlags) where
  abbrev pub core : Core
  core = core_of b ctx mac signing_key

  -- The sidecar has the same secret, and the core takes the value for the tier.
  abbrev pub is_done : Bool
  is_done =
      not (secret_of env f == "")
      && (secret_of env f == admin_secret)
      && fits_int32 f.value
      && is_accepted f.tier f.value

  -- The command ends with the code n, and the core is as `s'`.
  abbrev pub Ends : ℕ → Server b → Server b → Type 0
  Ends n s' s =
      let (o, t) = set_limit (post_served core admin_secret j) env f s in ((run o).0 ≡ n) × (t ≡ s')

  abbrev exit_of : AdminResponse → ℕ
  exit_of (error_status code) = if eqb code 200 then 0 else 1
  exit_of (json resp) = 0

  printed :
      (line : String)
      → ((line : String) → env.out line ≡ none)
      → (run (write_all env.out (line ∷ []))).0 ≡ 0
  unfolding run
  printed line written = ap (λ o. (run o).0) (write_all-one env.out line (written line))

  run-after_read :
      (resp : AdminResponse)
      → ((line : String) → env.out line ≡ none)
      → (run (after_post (post_served core admin_secret j) env (inl (reply_of j resp)))).0
        ≡ exit_of resp
  unfolding after_post after_read run write_all
  run-after_read (json resp) written = printed _ written
  run-after_read (error_status code) written = elim (Bool-cases (eqb code 200)) [
    | inl e ↦ rw e (printed _ written)
    | inr e ↦ rw e refl
  ]

  answered :
      (resp : AdminResponse) (body : String) (s s' : Server b)
      → ((url : String) → env.request_error url ≡ none)
      → ((line : String) → env.out line ≡ none)
      → (secret_of env f == "") ≡ false
      → env.marshal f.tier f.value ≡ inl body
      → Admin.serve_http core admin_secret
          (record { method = "POST"; provided = secret_of env f; body = j.decode body })
          s
        ≡ (resp, s')
      → Ends (exit_of resp) s' s
  unfolding set_limit after_marshal after_request post_served
  answered resp body s s' built written e m served =
      rw (e, m, built, served) (run-after_read resp written, refl)

  -- What the sidecar makes of the command's request.
  served_refused :
      (body : String) (s : Server b)
      → (secret_of env f == "") ≡ false
      → (secret_of env f == admin_secret) ≡ false
      → (code : ℕ) × (eqb code 200 ≡ false)
        × (Admin.serve_http core admin_secret
              (record { method = "POST"; provided = secret_of env f; body = j.decode body })
              s
            ≡ (error_status code, s))
  unfolding Admin.serve_http
  served_refused body s e g = elim (Bool-cases (admin_secret == "")) [
    | inl a ↦ (503, refl, ground (arith, a))
    | inr a ↦ (401, refl, ground (arith, a, e, g))
  ]

  -- What the sidecar has decoded is the core's to answer.
  passed :
      (e : (secret_of env f == "") ≡ false)
      → (secret_of env f == admin_secret) ≡ true
      → (admin_secret == "") ≡ false
  passed e g = ground (arith, e, ap (λ x. x == "") ((eq_iff (secret_of env f) admin_secret).0 g))

  abbrev body_of : SetLimitBody
  body_of = record { tier = f.tier; value = f.value }

  -- The reply of the sidecar decides the code, and the core is as the request leaves it.
  abbrev Outcomes : String → Server b → Type 0
  Outcomes body s =
      (resp : AdminResponse) × (s' : Server b) × (Admin.serve_http core admin_secret
          (record { method = "POST"; provided = secret_of env f; body = j.decode body }) s
        ≡ (resp, s'))
      × (exit_of resp ≡ (if is_done then 0 else 1))
      × (s' ≡ (if is_done then (set_dynamic_limit b f.tier f.value s).1 else s))

  serves :
      (body : String) (s s' : Server b) (resp : AdminResponse) (ok : Bool)
      → Admin.serve_http core admin_secret
          (record { method = "POST"; provided = secret_of env f; body = j.decode body })
          s
        ≡ (resp, s')
      → is_done ≡ ok
      → exit_of resp ≡ (if ok then 0 else 1)
      → s' ≡ (if ok then (set_dynamic_limit b f.tier f.value s).1 else s)
      → Outcomes body s
  serves body s s' resp ok q d c e = (resp, s', q, rw d c, rw d e)

  served_decoded :
      (body : String) (s : Server b)
      → (secret_of env f == "") ≡ false
      → (secret_of env f == admin_secret) ≡ true
      → fits_int32 f.value ≡ true
      → j.decode body ≡ some body_of
      → Outcomes body s
  unfolding Admin.serve_http
  served_decoded body s e g h d = elim (Bool-cases (is_accepted f.tier f.value)) [
    | inl k ↦
        let (resp, q) = set_dynamic_limit-accepted b f.tier f.value s k in
        serves body s (set_dynamic_limit b f.tier f.value s).1 (json resp) true
          (rw (passed e g, e, g, d, q) refl) (ground (arith, e, g, h, k)) refl refl
    | inr k ↦
        let (m, q) = set_dynamic_limit-refused b f.tier f.value s k in
        serves body s s (error_status 500) false (rw (passed e g, e, g, d, q) refl)
          (ground (arith, k)) refl refl
  ]

  served :
      (body : String) (s : Server b)
      → (secret_of env f == "") ≡ false
      → j.decode body ≡ (if fits_int32 f.value then some body_of else none)
      → Outcomes body s
  unfolding Admin.serve_http
  served body s e d = elim (Bool-cases (secret_of env f == admin_secret)) [
    | inr g ↦
        let (code, c, q) = served_refused body s e g in
        serves body s s (error_status code) false q (ground (arith, g)) (rw c refl) refl
    | inl g ↦ elim (Bool-cases (fits_int32 f.value)) [
      | inl h ↦ served_decoded body s e g h (rw d (rw h refl))
      | inr h ↦
          let undecoded : j.decode body ≡ none = rw d (rw h refl) in
          serves body s s (error_status 400) false (rw (passed e g, e, g, undecoded) refl)
            (ground (arith, h)) refl refl
    ]
  ]

  pub run_served :
      (s : Server b)
      → IsFaithful env.marshal j.decode f.tier f.value
      → ((url : String) → env.request_error url ≡ none)
      → ((line : String) → env.out line ≡ none)
      → Ends
          (if is_done then 0 else 1)
          (if is_done then (set_dynamic_limit b f.tier f.value s).1 else s)
          s
  unfolding set_limit run
  run_served s faithful built written = elim (Bool-cases (secret_of env f == "")) [
    | inl e ↦ rw e (refl, refl)
    | inr e ↦
        let (body, encoded, decoded) = faithful in
        let (resp, s', q, code, after) = served body s e decoded in
        let ends = answered resp body s s' built written e encoded q in
        (ends.0 ∙ code, ends.1 ∙ after)
  ]
