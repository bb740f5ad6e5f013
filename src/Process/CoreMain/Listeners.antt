-- ===== src/Process/CoreMain/Listeners.antt =====
-- Which listeners the core serves on (services/core/main.go).
use rate_cap.Prelude.{
  String, true, none, ◌≡◌, ◌⊎◌, subst, sym, refl, All, All-mono, Option-cases, inl, inr, eq_iff,
  arith,
}
use rate_cap.Config.{Config, validate}
use rate_cap.Process.Certificates.{require_and_verify, load}
use rate_cap.Process.Environment.{Started, fatal, running, is_set}
use rate_cap.Process.CoreMain.{
  Outside, Plan, Endpoint, tls, start, serve, load_config, main_transport, permissive_endpoints,
  start_pprof, load_tls, resolve_tls_mode,
}

Started-cases :
    {A : Type 0} (m : Started A) → ((e : String) × (m ≡ fatal e)) ⊎ ((a : A) × (m ≡ running a))
Started-cases (fatal e) = inl (e, refl)
Started-cases (running a) = inr (a, refl)

module _ (o : Outside) (plan : Plan) where
  -- What the start has checked when it comes to the listeners.
  record Checked (cfg : Config) (mode : String) : Type 0 where
    secret : is_set (o.getenv "RATECAP_SHARED_SECRET") ≡ true
    signing_key : is_set (o.getenv "RATECAP_CONCURRENCY_SIGNING_KEY") ≡ true
    valid : validate cfg ≡ none
    resolved : resolve_tls_mode (o.getenv "RATECAP_TLS_MODE") ≡ running mode
    certificates : mode ≡ "strict" → is_set (o.getenv "RATECAP_TLS_CERT_PATH") ≡ true
    served :
        serve o cfg
          (o.getenv "RATECAP_SHARED_SECRET")
          (o.getenv "RATECAP_CONCURRENCY_SIGNING_KEY")
          (o.getenv "RATECAP_TLS_CERT_PATH")
          mode
        ≡ running plan

  start-Checked : start o ≡ running plan → (cfg : Config) × (mode : String) × Checked cfg mode
  unfolding start load_config
  start-Checked h = elim (Option-cases o.config) [
    | inl e ↦ absurd (ground arith)
    | inr (cfg, e) ↦ elim (Started-cases (resolve_tls_mode (o.getenv "RATECAP_TLS_MODE"))) [
      | inl (m, f) ↦ absurd (ground arith)
      | inr (mode, f) ↦ (
        cfg,
        mode,
        record {
          secret = ground arith;
          signing_key = ground arith;
          valid = ground arith;
          resolved = f;
          certificates = λ s. ground (arith, eq_iff mode "strict");
          served = ground arith;
        },
      )
    ]
  ]

  serve-secrets :
      (cfg : Config) (secret signing_key cert_path mode : String)
      → serve o cfg secret signing_key cert_path mode ≡ running plan
      → All (λ (e : Endpoint). e.secret ≡ secret) plan.endpoints
        × (plan.signing_key ≡ signing_key)
        × (plan.config ≡ cfg)
  unfolding serve main_transport permissive_endpoints start_pprof load_tls
  serve-secrets cfg secret signing_key cert_path mode h = (ground arith, ground arith, ground arith)

  serve-strict :
      (cfg : Config) (secret signing_key cert_path : String)
      → is_set cert_path ≡ true
      → serve o cfg secret signing_key cert_path "strict" ≡ running plan
      → All (λ (e : Endpoint). e.transport ≡ tls require_and_verify) plan.endpoints
  unfolding serve main_transport permissive_endpoints start_pprof load_tls load
  serve-strict cfg secret signing_key cert_path c h = ground arith

  resolve_strict : (mode : String) → resolve_tls_mode "strict" ≡ running mode → "strict" ≡ mode
  unfolding resolve_tls_mode
  resolve_strict mode h = cc

  -- A core that starts has both secrets and a configuration that Validate accepts; every listener
  -- for the RPCs asks for the shared secret; and in the mode strict every one of them requires a
  -- certificate of the client.
  pub start-secure :
      start o ≡ running plan
      → (is_set plan.signing_key ≡ true)
        × (validate plan.config ≡ none)
        × All
            (λ (e : Endpoint).
              (e.secret ≡ o.getenv "RATECAP_SHARED_SECRET") × (is_set e.secret ≡ true))
            plan.endpoints
        × (o.getenv "RATECAP_TLS_MODE" ≡ "strict"
            → All (λ (e : Endpoint). e.transport ≡ tls require_and_verify) plan.endpoints)
  start-secure h =
      let (cfg, mode, c) = start-Checked h in
      let secret = o.getenv "RATECAP_SHARED_SECRET" in
      let signing_key = o.getenv "RATECAP_CONCURRENCY_SIGNING_KEY" in
      let cert_path = o.getenv "RATECAP_TLS_CERT_PATH" in
      let made = serve-secrets cfg secret signing_key cert_path mode c.served in
      (
        subst (λ k. is_set k ≡ true) (sym made.1) c.signing_key,
        subst (λ g. validate g ≡ none) (sym made.2) c.valid,
        All-mono plan.endpoints (λ e same. (same, subst (λ k. is_set k ≡ true) (sym same) c.secret))
            made.0,
        λ strict.
            let is_strict =
              resolve_strict mode
                (subst (λ r. resolve_tls_mode r ≡ running mode) strict c.resolved) in
            serve-strict cfg secret signing_key cert_path (c.certificates (sym is_strict)) (
              subst (λ m. serve o cfg secret signing_key cert_path m ≡ running plan) (sym is_strict)
                c.served),
      )
