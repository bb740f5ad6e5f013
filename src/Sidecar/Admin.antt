-- ===== src/Sidecar/Admin.antt =====
-- services/sidecar/admin/admin.go: the endpoint /admin/set-limit. The decoder of JSON is not part of
-- the repository: a body is what it gives, or `none` where it fails.
pub mod Gate
use rate_cap.Prelude.{
  ℕ, String, Bool, true, false, not, ◌||◌, Option, none, some, if◌then◌else◌, ◌==◌,
}
use rate_cap.Prelude.Int.{ℤ}
use rate_cap.Proto.{SetDynamicLimitResponse}
use rate_cap.Sidecar.Http.{Core}

pub record SetLimitBody : Type 0 where
  pub tier : String
  pub value : ℤ

-- The method, the header X-RateCap-Admin-Secret, empty if it is missing, and the body.
pub record AdminRequest : Type 0 where
  pub method : String
  pub provided : String
  pub body : Option SetLimitBody

-- A status of `http.Error`, or the reply of the core as JSON, with a 200.
pub data AdminResponse : Type 0 where
  error_status : ℕ → AdminResponse
  json : SetDynamicLimitResponse → AdminResponse

module _ (c : Core) where
  after_set : Option SetDynamicLimitResponse × c.State → AdminResponse × c.State
  after_set (none, s) = (error_status 500, s)
  after_set (some resp, s) = (json resp, s)

  set_limit : Option SetLimitBody → c.State → AdminResponse × c.State
  unfolding after_set
  set_limit none s = (error_status 400, s)
  set_limit (some body) s = after_set (c.set_dynamic_limit body.tier body.value s)

  unfoldable pub serve_http : String → AdminRequest → c.State → AdminResponse × c.State
  unfolding set_limit
  serve_http secret r s =
      if not (r.method == "POST")
      then (error_status 405, s)
      else (if secret == ""
          then (error_status 503, s)
          else (if (r.provided == "") || not (r.provided == secret)
              then (error_status 401, s)
              else set_limit r.body s))
