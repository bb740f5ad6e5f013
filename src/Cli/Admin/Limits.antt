-- ===== src/Cli/Admin/Limits.antt =====
-- When `admin set-limit` succeeds, behind the limiter of the sidecar (cli/cmd/admin.go,
-- services/sidecar/main.go, services/sidecar/admin/admin.go, services/core/grpcserver/server.go).
use rate_cap.Prelude.{
  String, Bool, true, false, ◌&&◌, ◌==◌, ap, Option, none, some, ◌⊎◌, inl, inr, if◌then◌else◌, ◌≡◌,
  refl, ◌∙◌, Bool-cases,
}
use rate_cap.Prelude.Int.{ℤ}
use rate_cap.Limiter.{Error, Backend, Context}
use rate_cap.Server.{set_dynamic_limit}
use rate_cap.Sidecar.Http.{Core}
use rate_cap.Sidecar.RateLimit.{allow}
use rate_cap.Sdk.Transport.{core_of}
use rate_cap.Cli.Root.{Outcome, run}
use rate_cap.Cli.Admin.{
  SetLimitFlags, AdminCall, AdminReply, Surroundings, secret_of, set_limit, after_marshal,
  after_request, after_post, after_read,
}
use rate_cap.Cli.Admin.Endpoint.{Json, post_served, post_allowed, post_to, Limited, IsFaithful}
use rate_cap.Cli.Admin.Served.{is_done, run_served}

module _ (b : Backend) (ctx : Context) (mac : String → String → String) (signing_key : String)
    (admin_secret : String) (j : Json) (env : Surroundings) (f : SetLimitFlags)
    (now later : ℤ) where
  abbrev core : Core
  core = core_of b ctx mac signing_key

  abbrev ask : AdminCall → Limited core.State → (AdminReply ⊎ Error) × Limited core.State
  ask = post_to core admin_secret j now later

  -- What a request that is let through comes to, and one that is throttled.
  abbrev Through : Outcome × Limited core.State → Outcome × core.State → Type 0
  Through p q = (p.0 ≡ q.0) × (p.1.server ≡ q.1)

  abbrev Throttled : Limited core.State → Outcome × Limited core.State → Type 0
  Throttled s p = ((run p.0).0 ≡ 1) × (p.1.server ≡ s.server)

  after_request-Through :
      (call : AdminCall) (e : Option Error) (s : Limited core.State)
      → (allow now s.limiter).0 ≡ true
      → Through
          (after_request ask env call e s)
          (after_request (post_served core admin_secret j) env call e s.server)
  unfolding after_request post_to post_allowed
  after_request-Through call (some e) s h = (refl, refl)
  after_request-Through call none s h = rw h (refl, refl)

  after_marshal-Through :
      (m : String ⊎ Error) (s : Limited core.State)
      → (allow now s.limiter).0 ≡ true
      → Through
          (after_marshal ask env f m s)
          (after_marshal (post_served core admin_secret j) env f m s.server)
  unfolding after_marshal
  after_marshal-Through (inr e) s h = (refl, refl)
  after_marshal-Through (inl body) s h = after_request-Through _ _ s h

  set_limit-Through :
      (s : Limited core.State)
      → (allow now s.limiter).0 ≡ true
      → Through (set_limit ask env f s) (set_limit (post_served core admin_secret j) env f s.server)
  unfolding set_limit
  set_limit-Through s h = elim (Bool-cases (secret_of env f == "")) [
    | inl e ↦ rw e (refl, refl)
    | inr e ↦ rw e (after_marshal-Through (env.marshal f.tier f.value) s h)
  ]

  after_request-Throttled :
      (call : AdminCall) (e : Option Error) (s : Limited core.State)
      → (allow now s.limiter).0 ≡ false
      → Throttled s (after_request ask env call e s)
  unfolding after_request after_post after_read post_to post_allowed run
  after_request-Throttled call (some e) s h = (refl, refl)
  after_request-Throttled call none s h = rw h (refl, refl)

  after_marshal-Throttled :
      (m : String ⊎ Error) (s : Limited core.State)
      → (allow now s.limiter).0 ≡ false
      → Throttled s (after_marshal ask env f m s)
  unfolding after_marshal run
  after_marshal-Throttled (inr e) s h = (refl, refl)
  after_marshal-Throttled (inl body) s h = after_request-Throttled _ _ s h

  set_limit-Throttled :
      (s : Limited core.State)
      → (allow now s.limiter).0 ≡ false
      → Throttled s (set_limit ask env f s)
  unfolding set_limit run
  set_limit-Throttled s h = elim (Bool-cases (secret_of env f == "")) [
    | inl e ↦ rw e (refl, refl)
    | inr e ↦ rw e (after_marshal-Throttled (env.marshal f.tier f.value) s h)
  ]

  abbrev pub succeeds : Limited core.State → Bool
  succeeds s = (allow now s.limiter).0 && is_done b ctx mac signing_key admin_secret j env f

  -- The command exits with 0 exactly if the limiter of the sidecar lets its request through, its
  -- secret is not empty and that of the sidecar, the value is an int32, and the core takes it for
  -- the tier: the rate of Tier 1, or a percentage from 0 to 100 for Tier 3. Then the core is as
  -- SetDynamicLimit leaves it, and else as it was. The request can be built, the sidecar is
  -- reached, the output can be written, and JSON carries what was encoded.
  pub set_limit-run :
      (s : Limited core.State)
      → IsFaithful env.marshal j.decode f.tier f.value
      → ((url : String) → env.request_error url ≡ none)
      → ((line : String) → env.out line ≡ none)
      → let (o, s') = set_limit (post_to core admin_secret j now later) env f s in
        ((run o).0 ≡ (if succeeds s then 0 else 1))
        × (s'.server
            ≡ (if succeeds s then (set_dynamic_limit b f.tier f.value s.server).1 else s.server))
  set_limit-run s faithful built written = elim (Bool-cases (allow now s.limiter).0) [
    | inl h ↦
        let same = set_limit-Through s h in
        let ends =
          run_served b ctx mac signing_key admin_secret j env f s.server faithful built written in
        rw h (ap (λ o. (run o).0) same.0 ∙ ends.0, same.1 ∙ ends.1)
    | inr h ↦ rw h (set_limit-Throttled s h)
  ]
