-- ===== src/Sdk/Received.antt =====
-- What the sidecar makes of the requests that the client sends
-- (packages/sdks/go/client.go, services/sidecar/proxy/proxy.go).
use rate_cap.Prelude.{
  String, Bool, true, false, Option, [], ◌∷◌, some, none, ◌≡◌, refl, ap, ◌∙◌, ◌&&◌, ◌==◌, ◌^◌, ◌-◌,
  if◌then◌else◌, eq_iff, Bool-cases, inl, inr, arith,
}
use rate_cap.Prelude.Int.{ℤ, pos, leb_ℤ}
use rate_cap.Prelude.Itoa.{itoa}
use rate_cap.Limiter.{Priority, critical, sheddable}
use rate_cap.Proto.{CheckRateLimitRequest}
use rate_cap.Sidecar.CriticalRoutes.{Set, contains}
use rate_cap.Sidecar.Http.{parse_int32, resolve_priority}
use rate_cap.Sidecar.Http.Numbers.{parse_int32-itoa}
use rate_cap.Sidecar.Proxy.{Handler, resolve_cost, amount_or_1, request, proto_priority}
use rate_cap.Sdk.Requests.{
  CheckOptions, Values, set_value, get_value, set_if, header_value, apply_to_request, get_check,
  read_check,
}

-- A positive int32.
abbrev pub is_amount : ℤ → Bool
is_amount x = leb_ℤ (pos 1) x && leb_ℤ x (pos (2 ^ 31 - 1))

resolve_cost-parse_int32 : (raw : String) → resolve_cost raw ≡ amount_or_1 (parse_int32 raw)
unfolding resolve_cost parse_int32
resolve_cost-parse_int32 raw = elim (Bool-cases (raw == "")) [
  | inl e ↦ rw ((eq_iff raw "").0 e) refl
  | inr e ↦ rw e refl
]

pub resolve_cost-itoa : (x : ℤ) → resolve_cost (itoa x) ≡ (if is_amount x then x else pos 1)
resolve_cost-itoa x =
    resolve_cost-parse_int32 (itoa x)
    ∙ ap amount_or_1 (parse_int32-itoa x)
    ∙ (unfold amount_or_1 in ground arith)

get_value-set_value :
    (k j v : String) (vs : Values)
    → get_value k (set_value j v vs) ≡ (if j == k then v else get_value k vs)
unfolding get_value set_value
get_value-set_value k j v [] = refl
get_value-set_value k j v ((i, w) ∷ vs) =
    ground (arith, eq_iff i j, eq_iff i k, eq_iff j k, get_value-set_value k j v vs)

-- A parameter that an option sets, and one that it leaves alone.
get_value-set_if :
    (b : Bool) (k j v : String) (vs : Values)
    → get_value k (set_if b j v vs) ≡ (if b && (j == k) then v else get_value k vs)
get_value-set_if true k j v vs = get_value-set_value k j v vs
get_value-set_if false k j v vs = refl

get_value-nil : (k : String) → get_value k [] ≡ ""
unfolding get_value
get_value-nil k = refl

skip_set {ℓ} : {A : Type ℓ} (b : Bool) (v w : A) → (if b && false then v else w) ≡ w
skip_set true v w = refl
skip_set false v w = refl

-- The cost and the priority that arrive, by the options that are set.
abbrev pub cost_of : CheckOptions → ℤ
cost_of o = if o.has_cost && is_amount o.cost then o.cost else pos 1

abbrev pub priority_of_options : Handler → CheckOptions → Priority
priority_of_options h o =
    if o.has_priority
    then o.priority
    else (if o.has_route && contains h.critical_routes o.route
        then critical
        else h.default_priority)

resolve_cost_or :
    (b : Bool) (x : ℤ)
    → resolve_cost (if b && true then itoa x else "") ≡ (if b && is_amount x then x else pos 1)
resolve_cost_or true x = resolve_cost-itoa x
resolve_cost_or false x = unfold resolve_cost in refl

contains_or :
    (s : Option Set) (b : Bool) (route : String)
    → contains s (if b && true then route else "") ≡ (b && contains s route)
contains_or s true route = refl
contains_or none false route = unfold contains in refl
contains_or (some x) false route = unfold contains in refl

resolve_priority_or :
    (b matched : Bool) (p q : Priority)
    → resolve_priority (if b && true then header_value p else "") matched q
      ≡ (if b then p else (if matched then critical else q))
unfolding resolve_priority header_value
resolve_priority_or true matched critical q = refl
resolve_priority_or true matched sheddable q = refl
resolve_priority_or false matched p q = refl

abbrev pub received : Handler → CheckOptions → String → Bool → CheckRateLimitRequest
received h o key skip = record {
  key = key;
  cost = cost_of o;
  skip_reservations = skip;
  priority = proto_priority (priority_of_options h o);
}

abbrev pub made : String → Bool → ℤ → Priority → CheckRateLimitRequest
made key skip cost p = record {
  key = key;
  cost = cost;
  skip_reservations = skip;
  priority = proto_priority p;
}

module _ (h : Handler) (o : CheckOptions) where
  cost_received :
      (query : Values)
      → get_value "cost" query ≡ ""
      → resolve_cost (get_value "cost" (set_if o.has_cost "cost" (itoa o.cost) query)) ≡ cost_of o
  cost_received query e =
      ap resolve_cost (get_value-set_if o.has_cost "cost" "cost" (itoa o.cost) query)
      ∙ ap (λ t. resolve_cost (if o.has_cost && true then itoa o.cost else t)) e
      ∙ resolve_cost_or o.has_cost o.cost

  abbrev sent_headers : Values
  sent_headers =
      set_if o.has_route "x-ratecap-route" o.route
        (set_if o.has_priority "x-ratecap-priority" (header_value o.priority) [])

  priority_received :
      resolve_priority
        (get_value "x-ratecap-priority" sent_headers)
        (contains h.critical_routes (get_value "x-ratecap-route" sent_headers))
        h.default_priority
      ≡ priority_of_options h o
  priority_received =
      let inner = set_if o.has_priority "x-ratecap-priority" (header_value o.priority) [] in
      let p =
        get_value-set_if o.has_route "x-ratecap-priority" "x-ratecap-route" o.route inner
        ∙ skip_set o.has_route o.route (get_value "x-ratecap-priority" inner)
        ∙ get_value-set_if o.has_priority "x-ratecap-priority" "x-ratecap-priority"
            (header_value o.priority) []
        ∙ ap (λ t. if o.has_priority && true then header_value o.priority else t)
            (get_value-nil "x-ratecap-priority") in
      let r =
        get_value-set_if o.has_route "x-ratecap-route" "x-ratecap-route" o.route inner
        ∙ ap (λ t. if o.has_route && true then o.route else t)
            (get_value-set_if o.has_priority "x-ratecap-route" "x-ratecap-priority"
                (header_value o.priority) []
              ∙ skip_set o.has_priority (header_value o.priority) (get_value "x-ratecap-route" [])
              ∙ get_value-nil "x-ratecap-route") in
      (λ i. resolve_priority (p i) (contains h.critical_routes (r i)) h.default_priority)
      ∙ resolve_priority_or o.has_priority
          (contains h.critical_routes (if o.has_route && true then o.route else "")) o.priority
          h.default_priority
      ∙ ap
          (λ (t : Bool).
            if o.has_priority then o.priority else (if t then critical else h.default_priority))
          (contains_or h.critical_routes o.has_route o.route)

  pub received_lem :
      (key skip : String) (query : Values)
      → get_value "key" query ≡ key
      → get_value "cost" query ≡ ""
      → get_value "skip_reservations" query ≡ skip
      → request h (read_check (get_check (apply_to_request o query [])))
        ≡ received h o key (skip == "true")
  unfolding read_check apply_to_request
  received_lem key skip query ek ec es =
      let q = set_if o.has_cost "cost" (itoa o.cost) query in
      let k =
        get_value-set_if o.has_cost "key" "cost" (itoa o.cost) query
        ∙ skip_set o.has_cost (itoa o.cost) (get_value "key" query)
        ∙ ek in
      let s =
        get_value-set_if o.has_cost "skip_reservations" "cost" (itoa o.cost) query
        ∙ skip_set o.has_cost (itoa o.cost) (get_value "skip_reservations" query)
        ∙ es in
      λ i. made (k i) (s i == "true") (cost_received query ec i) (priority_received i)
