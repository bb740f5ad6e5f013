-- ===== src/SampleApp.antt =====
-- deploy/sampleapp/main.go: the four endpoints of the demo, over a transport to the sidecar. The
-- address of the sidecar is one that parses, so that a request can be built; a deadline that passes
-- is an error of the transport.
pub mod Returns
use Prim.Native.String.{◌++◌ as ◌+++◌}
use rate_cap.Prelude.{
  ℕ, zero, suc, String, Bool, true, false, not, ◌||◌, List, [], ◌∷◌, ◌++◌, length, Option, none,
  some, if◌then◌else◌, ◌==◌, eqb, ◌⊎◌, inl, inr,
}
use rate_cap.Prelude.Int.{ℤ, pos, ◌+ℤ◌, wrap64}
use rate_cap.Prelude.Itoa.{itoa}
use rate_cap.Limiter.{Error, TokenReservation}
use rate_cap.Sidecar.Http.{
  HeaderName, named, indexed, HeaderValue, text, number, HttpResponse, code_of,
}
use rate_cap.Sdk.{Ticket, get_header, text_of}
use rate_cap.Sdk.Requests.{Values, set_if, SentRequest, get_check, release_request}
use rate_cap.Sdk.Client.{call_allow, call_acquire, call_release}

abbrev pub relayed_check_headers : List HeaderName
relayed_check_headers =
    named "X-RateCap-Shed-Tier" ∷ named "Retry-After-Ms" ∷ named "RateLimit-Reset" ∷ []

-- A header that is present and not empty is set on the reply.
relayed : HeaderName → Option HeaderValue → List (HeaderName × HeaderValue)
relayed h none = []
relayed h (some (text s)) = if s == "" then [] else (h, text s) ∷ []
relayed h (some (number n)) = (h, number n) ∷ []

relay_from : List HeaderName → List (HeaderName × HeaderValue) → List (HeaderName × HeaderValue)
unfolding relayed
relay_from [] check_resp = []
relay_from (h ∷ hs) check_resp = relayed h (get_header h check_resp) ++ relay_from hs check_resp

-- The names differ, so that no `Set` replaces another's value.
unfoldable pub relay_check_headers :
    List (HeaderName × HeaderValue) → List (HeaderName × HeaderValue)
unfolding relay_from
relay_check_headers check_resp = relay_from relayed_check_headers check_resp

-- The reply of an endpoint; no status means that a 200 is sent with the body.
pub record Reply : Type 0 where
  pub headers : List (HeaderName × HeaderValue)
  pub status : Option ℕ
  pub body : String

-- `http.Error`, which ends the line
abbrev failed : String → ℕ → Reply
failed body code = record { headers = []; status = some code; body = body +++ "\n" }

abbrev limited : ℤ → String → Reply
limited retry_after_ms body = record {
  headers = (named "Retry-After-Ms", number retry_after_ms) ∷ [];
  status = some 429;
  body = body +++ "\n";
}

abbrev done : String → Reply
done body = record { headers = []; status = none; body = body }

-- The loop over the headers of a reply; a `releaseKey` has the fields of a reservation. The fuel
-- bounds the rounds: one more than there are headers is enough.
next_key : String → Option HeaderValue → List TokenReservation → List TokenReservation
next_key tok res_key rest =
    if tok == "" then [] else record { key = text_of res_key; token = tok } ∷ rest

unfoldable pub release_keys_from : ℕ → ℕ → List (HeaderName × HeaderValue) → List TokenReservation
unfolding next_key
release_keys_from zero i hs = []
release_keys_from (suc fuel) i hs =
    let rest = release_keys_from fuel (suc i) hs in
    next_key (text_of (get_header (indexed "Concurrency-Token-" i) hs))
      (get_header (indexed "Concurrency-Key-" i) hs) rest

unfoldable pub release_keys : HttpResponse → List TokenReservation
unfolding release_keys_from
release_keys resp = release_keys_from (suc (length resp.headers)) 0 resp.headers

-- `fleetDemoCounter`, and what the transport reaches.
pub record App (S : Type 0) : Type 0 where
  pub fleet_demo_counter : ℤ
  pub outside : S

abbrev pub next_count : ℤ → ℤ
next_count n = wrap64 (n +ℤ pos 1)

abbrev priority_label : String → String
priority_label priority_param = if priority_param == "critical" then "critical" else "sheddable"

abbrev bool_text : Bool → String
bool_text b = if b then "true" else "false"

abbrev pub shown : String → String → String
shown priority_param route_param =
    "(priority="
    +++ (priority_label priority_param
        +++ (", route-header-set=" +++ (bool_text (not (route_param == "")) +++ ")\n")))

abbrev pub fleet_key : ℤ → String
fleet_key count = "fleet-demo-" +++ itoa count

unfoldable pub fleet_request : String → String → String → SentRequest
fleet_request key priority_param route_param = get_check (
  ("key", key) ∷ [],
  set_if (not (route_param == "")) "x-ratecap-route" route_param (
      set_if ((priority_param == "critical") || (priority_param == "sheddable"))
        "x-ratecap-priority" (priority_label priority_param) []),
)

unfoldable pub worker_request : String → SentRequest
worker_request key = get_check (("key", key) ∷ ("skip_reservations", "true") ∷ [], [])

module _ {S : Type 0} (send : SentRequest → S → (HttpResponse ⊎ Error) × S) where
  -- One call for each reservation, whatever the calls before it gave.
  unfoldable pub release_all : List TokenReservation → S → S
  release_all [] s = s
  release_all (rk ∷ keys) s = release_all keys (send (release_request rk) s).1

  after_allow : Ticket ⊎ Error → Reply
  after_allow (inl t) =
      if t.allowed then done "checkout processed\n" else limited t.retry_after_ms "rate limited"
  after_allow (inr e) = failed "rate limit check failed" 500

  unfoldable pub checkout : App S → Reply × App S
  unfolding after_allow
  checkout a =
      let (t, s) = call_allow send "demo-user" [] a.outside in
      (after_allow t, record a { outside = s })

  -- The release is deferred, and its error dropped.
  after_acquire : Ticket ⊎ Error → S → Reply × S
  after_acquire (inl t) s = (
    if t.allowed
        then done "report generated\n"
        else limited t.retry_after_ms "too many concurrent reports in flight",
    (call_release send t.reservations s).1,
  )
  after_acquire (inr e) s = (failed "concurrency check failed" 500, s)

  unfoldable pub slow_report : App S → Reply × App S
  unfolding after_acquire
  slow_report a =
      let (t, s) = call_acquire send "demo-user-reports" [] a.outside in
      let (reply, s') = after_acquire t s in (reply, record a { outside = s' })

  -- The reply is written before the release if the request was shed, and after it if not.
  after_fleet_check : String → HttpResponse ⊎ Error → S → Reply × S
  after_fleet_check what (inl resp) s =
      let s' = release_all (release_keys resp) s in
      let headers = relay_check_headers resp.headers in
      if eqb (code_of resp) 200
      then (
        record { headers = headers; status = none; body = "fleet request processed " +++ what },
        s',
      )
      else (record { headers = headers; status = some (code_of resp); body = "shed " +++ what }, s')
  after_fleet_check what (inr e) s = (failed "fleet check failed" 500, s)

  unfoldable pub fleet_demo : String → String → App S → Reply × App S
  unfolding after_fleet_check
  fleet_demo priority_param route_param a =
      let count = next_count a.fleet_demo_counter in
      let (resp, s) = send (fleet_request (fleet_key count) priority_param route_param) a.outside in
      let (reply, s') = after_fleet_check (shown priority_param route_param) resp s in
      (reply, record { fleet_demo_counter = count; outside = s' })

  after_worker_check : HttpResponse ⊎ Error → Reply
  after_worker_check (inl resp) =
      let headers = relay_check_headers resp.headers in
      if eqb (code_of resp) 200
      then record { headers = headers; status = none; body = "worker request processed\n" }
      else record {
        headers = headers;
        status = some (code_of resp);
        body = "shed (status=" +++ (itoa (pos (code_of resp)) +++ ")\n");
      }
  after_worker_check (inr e) = failed "worker check failed" 500

  unfoldable pub worker_demo : App S → Reply × App S
  unfolding after_worker_check
  worker_demo a =
      let count = next_count a.fleet_demo_counter in
      let (resp, s) = send (worker_request ("worker-demo-" +++ itoa count)) a.outside in
      (after_worker_check resp, record { fleet_demo_counter = count; outside = s })
