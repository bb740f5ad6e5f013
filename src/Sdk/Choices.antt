-- ===== src/Sdk/Choices.antt =====
-- What the core is asked for the options that a caller of the client chooses
-- (packages/sdks/go/client.go, services/sidecar/proxy/proxy.go).
use rate_cap.Prelude.{
  String, Bool, true, false, Option, List, [], ◌∷◌, some, none, ◌≡◌, if◌then◌else◌,
}
use rate_cap.Prelude.Int.{ℤ, pos}
use rate_cap.Limiter.{Priority, critical}
use rate_cap.Proto.{CheckRateLimitRequest}
use rate_cap.Sidecar.CriticalRoutes.{contains}
use rate_cap.Sidecar.Proxy.{Handler}
use rate_cap.Sdk.Requests.{CheckOption, CheckOptions, with_cost, with_priority, with_route}
use rate_cap.Sdk.Received.{is_amount, made}

-- The options that a caller of the client can choose.
pub data Choice : Type 0 where
  set_cost : ℤ → Choice
  set_priority : Priority → Choice
  set_route : String → Choice

abbrev pub option_of : Choice → CheckOption
option_of (set_cost x) = with_cost x
option_of (set_priority p) = with_priority p
option_of (set_route route) = with_route route

abbrev pub options_of : List Choice → List CheckOption
options_of [] = []
options_of (x ∷ cs) = option_of x ∷ options_of cs

-- The last choice of each kind, and `d` if there is none.
abbrev pub last_cost : Option ℤ → List Choice → Option ℤ
last_cost d [] = d
last_cost d (set_cost x ∷ cs) = last_cost (some x) cs
last_cost d (set_priority p ∷ cs) = last_cost d cs
last_cost d (set_route route ∷ cs) = last_cost d cs

abbrev pub last_priority : Option Priority → List Choice → Option Priority
last_priority d [] = d
last_priority d (set_cost x ∷ cs) = last_priority d cs
last_priority d (set_priority p ∷ cs) = last_priority (some p) cs
last_priority d (set_route route ∷ cs) = last_priority d cs

abbrev pub last_route : Option String → List Choice → Option String
last_route d [] = d
last_route d (set_cost x ∷ cs) = last_route d cs
last_route d (set_priority p ∷ cs) = last_route d cs
last_route d (set_route route ∷ cs) = last_route (some route) cs

-- A cost that is no positive int32 counts as 1.
abbrev pub cost_asked : Option ℤ → ℤ
cost_asked none = pos 1
cost_asked (some x) = if is_amount x then x else pos 1

-- A priority that is not given is critical for a route of the list, and else the handler's default.
abbrev pub priority_asked : Handler → Option Priority → Option String → Priority
priority_asked h (some p) route = p
priority_asked h none none = h.default_priority
priority_asked h none (some route) =
    if contains h.critical_routes route then critical else h.default_priority

-- What the core is asked for the choices `cs`.
abbrev pub asked : Handler → String → List Choice → Bool → CheckRateLimitRequest
asked h key cs skip =
    made key skip (cost_asked (last_cost none cs))
      (priority_asked h (last_priority none cs) (last_route none cs))

given {ℓ} : {A : Type ℓ} → Bool → A → Option A
given true x = some x
given false x = none

-- The options that are set are the last of each kind.
record Chosen (o o' : CheckOptions) (cs : List Choice) : Type 0 where
  cost_set : given o'.has_cost o'.cost ≡ last_cost (given o.has_cost o.cost) cs
  priority_set :
      given o'.has_priority o'.priority ≡ last_priority (given o.has_priority o.priority) cs
  route_set : given o'.has_route o'.route ≡ last_route (given o.has_route o.route) cs
