-- ===== src/Store/Token.antt =====
-- The signed tokens of Tier 2: `signToken` of services/core/store/redis.go and `verifyToken` of
-- services/core/grpcserver/server.go. The hex form of the HMAC-SHA256 of a message under a key is
-- the parameter `mac`.
pub mod Signing
use Prim.Native.Char.{code}
use Prim.Native.String.{◌++◌}
use rate_cap.Prelude.{String, Bool, false, Option, none, some, if◌then◌else◌, eqb, ◌==◌}

-- `strings.Cut(s, ".")`
pub cut_dot : String → Option (String × String)
cut_dot String.[] = none
cut_dot (String.◌∷◌ c s) =
    let rest = cut_dot s in
    if eqb (code c) b'.'
    then some ("", s)
    else elim rest [ none ↦ none | some p ↦ some (String.◌∷◌ c p.0, p.1) ]

module _ (mac : String → String → String) where
  unfoldable pub sign_token : String → String → String
  sign_token candidate_uuid signing_key = candidate_uuid ++ ("." ++ mac signing_key candidate_uuid)

  verify_parts : String → Option (String × String) → Bool
  verify_parts signing_key none = false
  verify_parts signing_key (some p) = p.1 == mac signing_key p.0

  unfoldable pub verify_token : String → String → Bool
  unfolding verify_parts
  verify_token token signing_key = verify_parts signing_key (cut_dot token)
