-- ===== src/Cli/Admin.antt =====
-- cli/cmd/admin.go: `admin set-limit`. The encoding to JSON, the parsing of the address and the
-- transport to the sidecar are parameters.
pub mod Endpoint
pub mod Served
pub mod Limits
use Prim.Native.String.{◌++◌ as ◌+++◌}
use rate_cap.Prelude.{
  ℕ, String, List, [], ◌∷◌, Option, none, some, if◌then◌else◌, ◌==◌, ◌⊎◌, inl, inr, eqb,
}
use rate_cap.Prelude.Int.{ℤ, pos}
use rate_cap.Prelude.Itoa.{itoa}
use rate_cap.Limiter.{Error}
use rate_cap.Cli.Root.{Outcome, failing, Writer, write_all}

pub record SetLimitFlags : Type 0 where
  pub sidecar_addr : String
  pub admin_secret : String
  pub tier : String
  pub value : ℤ

-- The POST request, with its two headers.
pub record AdminCall : Type 0 where
  pub url : String
  pub admin_secret : String
  pub content_type : String
  pub body : String

-- A reply: its status, and its body or the error of reading it.
pub record AdminReply : Type 0 where
  pub status_code : ℕ
  pub body : String ⊎ Error

-- What the command stands on: the variable RATECAP_ADMIN_SECRET, `json.Marshal` of the tier and the
-- value, the error of a request that cannot be built, and the standard output.
pub record Surroundings : Type 0 where
  pub env_secret : String
  pub marshal : String → ℤ → String ⊎ Error
  pub request_error : String → Option Error
  pub out : Writer

abbrev pub secret_of : Surroundings → SetLimitFlags → String
secret_of env f = if f.admin_secret == "" then env.env_secret else f.admin_secret

module _ {S : Type 0} (post : AdminCall → S → (AdminReply ⊎ Error) × S) (env : Surroundings) where
  after_read : ℕ → String ⊎ Error → Outcome
  after_read code (inr e) = failing e
  after_read code (inl resp_body) =
      if eqb code 200
      then write_all env.out ((resp_body +++ "\n") ∷ [])
      else failing ("sidecar returned " +++ (itoa (pos code) +++ (": " +++ resp_body)))

  after_post : AdminReply ⊎ Error → Outcome
  unfolding after_read
  after_post (inr e) = failing ("calling sidecar: " +++ e)
  after_post (inl reply) = after_read reply.status_code reply.body

  after_request : AdminCall → Option Error → S → Outcome × S
  unfolding after_post
  after_request call (some e) s = (failing e, s)
  after_request call none s = let (reply, s') = post call s in (after_post reply, s')

  after_marshal : SetLimitFlags → String ⊎ Error → S → Outcome × S
  unfolding after_request
  after_marshal f (inr e) s = (failing e, s)
  after_marshal f (inl body) s =
      let url = f.sidecar_addr +++ "/admin/set-limit" in
      after_request
        (record {
          url = url;
          admin_secret = secret_of env f;
          content_type = "application/json";
          body = body;
        })
        (env.request_error url) s

  unfoldable pub set_limit : SetLimitFlags → S → Outcome × S
  unfolding after_marshal
  set_limit f s =
      if secret_of env f == ""
      then (failing "--admin-secret is required (or set RATECAP_ADMIN_SECRET)", s)
      else after_marshal f (env.marshal f.tier f.value) s
