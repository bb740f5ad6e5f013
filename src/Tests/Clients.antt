-- ===== src/Tests/Clients.antt =====
-- The requests and the replies of the client.
use rate_cap.Prelude.{Bool, suc, ◌+◌, true, List, [], ◌∷◌, some, ◌≡◌, ◌==◌, refl, length}
use rate_cap.Prelude.Int.{pos}
use rate_cap.Limiter.{sheddable}
use rate_cap.Sidecar.Shedder.{new_shedder}
use rate_cap.Sidecar.Http.{HeaderName, named, indexed, HeaderValue, text}
use rate_cap.Sidecar.Proxy.{Handler}
use rate_cap.Sdk.{get_header, text_of, read_reservations}
use rate_cap.Sdk.Rounds.{read_reservations-ends}
use rate_cap.Proto.{ProtoPriority, CheckRateLimitRequest}
use rate_cap.Sdk.Choices.{Choice, set_cost, set_route}

-- A reply with the tokens 0 and 2 among its headers: the loop stops at 1.
abbrev headers : List (HeaderName × HeaderValue)
headers =
    (indexed "Concurrency-Token-" 0, text "t.m")
    ∷ (indexed "Concurrency-Key-" 0, text "k")
    ∷ (indexed "Concurrency-Token-" 2, text "u.m")
    ∷ (named "X-RateCap-Shed-Tier", text "3")
    ∷ []

one_reservation : length (read_reservations 5 0 headers) ≡ 1
unfolding read_reservations get_header
one_reservation = refl

read_reservations-ends_example :
    let rs = read_reservations (suc (length headers)) 0 headers in
    ((text_of (get_header (indexed "Concurrency-Token-" (length rs)) headers) == "") ≡ true)
    × (read_reservations (suc (length headers) + 7) 0 headers ≡ rs)
read_reservations-ends_example = read_reservations-ends headers 7

abbrev handler : Handler
handler = record {
  default_priority = sheddable;
  shedder = new_shedder (pos 5);
  caches = true;
  critical_routes = some (some ("/pay" ∷ []));
}

abbrev choices : List Choice
choices = set_cost (pos 3) ∷ set_route "/pay" ∷ set_cost (pos 12) ∷ []

abbrev wanted : Bool → CheckRateLimitRequest
wanted skip = record {
  key = "k";
  cost = pos 12;
  skip_reservations = skip;
  priority = ProtoPriority.critical;
}
