-- ===== src/Sdk/Requests.antt =====
-- packages/sdks/go/client.go: the options of a check, and the requests that the client sends.
use rate_cap.Prelude.{String, Bool, true, false, List, [], ◌∷◌, if◌then◌else◌, ◌==◌}
use rate_cap.Prelude.Int.{ℤ, pos}
use rate_cap.Prelude.Itoa.{itoa}
use rate_cap.Limiter.{Priority, critical, sheddable, TokenReservation}
use rate_cap.Sidecar.Proxy.{CheckRequest}
use rate_cap.Sidecar.Release.{ReleaseRequest}

-- Of an HTTP request, what the client sets and the sidecar reads: `url.Values` and `http.Header`.
abbrev pub Values : Type 0
Values = List (String × String)

-- `Set` replaces the value of a name, `Get` gives "" for a name that is missing.
unfoldable pub set_value : String → String → Values → Values
set_value k v [] = (k, v) ∷ []
set_value k v ((j, w) ∷ vs) =
    let rest = set_value k v vs in if j == k then (k, v) ∷ vs else (j, w) ∷ rest

unfoldable pub get_value : String → Values → String
get_value k [] = ""
get_value k ((j, w) ∷ vs) = let rest = get_value k vs in if j == k then w else rest

pub record SentRequest : Type 0 where
  pub method : String
  pub path : String
  pub query : Values
  pub headers : Values

unfoldable pub header_value : Priority → String
header_value critical = "critical"
header_value sheddable = "sheddable"

pub record CheckOptions : Type 0 where
  pub cost : ℤ
  pub has_cost : Bool
  pub priority : Priority
  pub has_priority : Bool
  pub route : String
  pub has_route : Bool

-- A `CheckOption` is a function on the options.
abbrev pub CheckOption : Type 0
CheckOption = CheckOptions → CheckOptions

unfoldable pub with_cost : ℤ → CheckOption
with_cost cost o = record o { cost = cost; has_cost = true }

unfoldable pub with_priority : Priority → CheckOption
with_priority p o = record o { priority = p; has_priority = true }

unfoldable pub with_route : String → CheckOption
with_route route o = record o { route = route; has_route = true }

-- The zero value of the struct.
abbrev pub no_options : CheckOptions
no_options = record {
  cost = pos 0;
  has_cost = false;
  priority = sheddable;
  has_priority = false;
  route = "";
  has_route = false;
}

unfoldable pub apply_from : CheckOptions → List CheckOption → CheckOptions
apply_from o [] = o
apply_from o (opt ∷ opts) = apply_from (opt o) opts

unfoldable pub apply_check_options : List CheckOption → CheckOptions
unfolding apply_from
apply_check_options opts = apply_from no_options opts

abbrev pub set_if : Bool → String → String → Values → Values
set_if b k v vs = if b then set_value k v vs else vs

unfoldable pub apply_to_request : CheckOptions → Values → Values → Values × Values
apply_to_request o query headers = (
  set_if o.has_cost "cost" (itoa o.cost) query,
  set_if o.has_route "x-ratecap-route" o.route
      (set_if o.has_priority "x-ratecap-priority" (header_value o.priority) headers),
)

abbrev pub get_check : Values × Values → SentRequest
get_check (query, headers) = record {
  method = "GET";
  path = "/check";
  query = query;
  headers = headers;
}

-- The requests of `Allow` and `Acquire`.
unfoldable pub allow_request : String → List CheckOption → SentRequest
allow_request key opts = get_check (
    apply_to_request (apply_check_options opts) (("key", key) ∷ ("skip_reservations", "true") ∷ [])
      [])

unfoldable pub acquire_request : String → List CheckOption → SentRequest
acquire_request key opts =
    get_check (apply_to_request (apply_check_options opts) (("key", key) ∷ []) [])

-- Those of `releaseOne` and `Refund`.
unfoldable pub release_request : TokenReservation → SentRequest
release_request r = record {
  method = "POST";
  path = "/release";
  query = [];
  headers =
      set_value "X-RateCap-Concurrency-Token" r.token
        (set_value "X-RateCap-Concurrency-Key" r.key []);
}

unfoldable pub refund_request : String → ℤ → SentRequest
refund_request key refund_amount = record {
  method = "POST";
  path = "/release";
  query = [];
  headers =
      set_value "X-RateCap-Refund-Amount" (itoa refund_amount)
        (set_value "X-RateCap-Refund-Key" key []);
}

-- What the handlers of the sidecar read of a request (services/sidecar/proxy/proxy.go). That a
-- query and headers arrive as they were set is the work of net/http.
unfoldable pub read_check : SentRequest → CheckRequest
read_check r = record {
  method = r.method;
  key = get_value "key" r.query;
  cost = get_value "cost" r.query;
  skip_reservations = get_value "skip_reservations" r.query;
  route_header = get_value "x-ratecap-route" r.headers;
  priority_header = get_value "x-ratecap-priority" r.headers;
}

unfoldable pub read_release : SentRequest → ReleaseRequest
read_release r = record {
  method = r.method;
  concurrency_key = get_value "X-RateCap-Concurrency-Key" r.headers;
  concurrency_token = get_value "X-RateCap-Concurrency-Token" r.headers;
  refund_key = get_value "X-RateCap-Refund-Key" r.headers;
  refund_amount = get_value "X-RateCap-Refund-Amount" r.headers;
}
