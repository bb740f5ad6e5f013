-- ===== src/Cli/Admin/Endpoint.antt =====
-- The endpoint that `admin set-limit` calls (services/sidecar/admin/admin.go), behind the limiter that
-- services/sidecar/main.go puts before all routes.
use rate_cap.Prelude.{
  ℕ, String, Bool, true, false, Option, none, some, ◌⊎◌, inl, if◌then◌else◌, ◌≡◌,
}
use rate_cap.Prelude.Int.{fits_int32, ℤ}
use rate_cap.Limiter.{Error}
use rate_cap.Proto.{SetDynamicLimitResponse}
use rate_cap.Sidecar.Http.{Core}
use rate_cap.Sidecar.Admin
use rate_cap.Sidecar.Admin.{SetLimitBody, AdminResponse, error_status, json}
use rate_cap.Sidecar.RateLimit.{Limiter, allow, retry_after}
use rate_cap.Cli.Admin.{AdminCall, AdminReply}

-- JSON at the sidecar: the decoder of a body, the encoder of a reply, and the text of an error.
pub record Json : Type 0 where
  pub decode : String → Option SetLimitBody
  pub encode : SetDynamicLimitResponse → String
  pub error_text : ℕ → String

abbrev pub reply_of : Json → AdminResponse → AdminReply
reply_of j (error_status code) = record { status_code = code; body = inl (j.error_text code) }
reply_of j (json resp) = record { status_code = 200; body = inl (j.encode resp) }

-- The endpoint /admin/set-limit of a sidecar with the secret `admin_secret`.
unfoldable pub post_served :
    (c : Core) → String → Json → AdminCall → c.State → (AdminReply ⊎ Error) × c.State
post_served c admin_secret j call s =
    let (resp, s') =
      Admin.serve_http c admin_secret
        (record { method = "POST"; provided = call.admin_secret; body = j.decode call.body }) s in
    (inl (reply_of j resp), s')

-- A server with the limiter that all routes of its sidecar share.
pub record Limited (S : Type 0) : Type 0 where
  pub server : S
  pub limiter : Limiter

unfoldable pub post_allowed :
    (c : Core)
    → String
    → Json
    → ℤ
    → AdminCall
    → c.State
    → Bool × Limiter
    → (AdminReply ⊎ Error) × Limited c.State
post_allowed c admin_secret j later call s (true, l) =
    let (reply, s') = post_served c admin_secret j call s in
    (reply, record { server = s'; limiter = l })
post_allowed c admin_secret j later call s (false, l) = (
  inl (record { status_code = 429; body = inl (j.error_text 429) }),
  record { server = s; limiter = (retry_after later l).1 },
)

-- A transport to the sidecar. As `newTopMux` has it, the endpoint is behind the limiter, which reads
-- the clock at `now`, and at `later` again where it refuses.
unfoldable pub post_to :
    (c : Core)
    → String
    → Json
    → ℤ
    → ℤ
    → AdminCall
    → Limited c.State
    → (AdminReply ⊎ Error) × Limited c.State
unfolding post_allowed
post_to c admin_secret j now later call s =
    post_allowed c admin_secret j later call s.server (allow now s.limiter)

-- What the documentation of encoding/json says of a body: it decodes to what was encoded, and a
-- number that is no int32 is an error.
abbrev pub IsFaithful :
    (String → ℤ → String ⊎ Error) → (String → Option SetLimitBody) → String → ℤ → Type 0
IsFaithful marshal decode tier value =
    (body : String) × (marshal tier value ≡ inl body)
    × (decode body
        ≡ (if fits_int32 value then some (record { tier = tier; value = value }) else none))
