-- ===== src/Sidecar/Http.antt =====
-- What the handlers of services/sidecar share: replies, `strconv.ParseInt(raw, 10, 32)` of the Go
-- library as they use it, the effects on metrics and logs, the shadow override (shadow/shadow.go),
-- the resolution of a priority (proxy/priority.go), and the RPCs of the core.
pub mod Numbers
use Prim.Native.Char.{code}
use rate_cap.Prelude.{
  ℕ, String, Bool, true, false, List, [], Option, none, some, if◌then◌else◌, ◌==◌, ◌+◌, ◌*◌, ◌-◌,
  ◌^◌, leb, ltb, eqb,
}
use rate_cap.Prelude.Int.{ℤ, pos, neg}
use rate_cap.Limiter.{Priority, sheddable, critical}
use rate_cap.Proto.{
  ProtoAction, CheckRateLimitRequest, CheckRateLimitResponse, SetDynamicLimitResponse,
}

-- A header's value is text, or a number that `FormatInt` prints.
pub data HeaderValue : Type 0 where
  text : String → HeaderValue
  number : ℤ → HeaderValue

-- A header's name, or one that ends in an index printed with `%d`.
pub data HeaderName : Type 0 where
  named : String → HeaderName
  indexed : String → ℕ → HeaderName

-- The calls of `Header().Set` in order, and the status of `WriteHeader`: where a handler makes no
-- such call, the server sends a 200.
pub record HttpResponse : Type 0 where
  pub headers : List (HeaderName × HeaderValue)
  pub status : Option ℕ

abbrev pub code_of : HttpResponse → ℕ
code_of r = elim r.status [ none ↦ 200 | some n ↦ n ]

-- `http.Error`, less its text.
abbrev pub http_error : ℕ → HttpResponse
http_error n = record { headers = []; status = some n }

-- The digits of a number after the part `acc`.
parse_digits : ℕ → String → Option ℕ
parse_digits acc String.[] = some acc
parse_digits acc (String.◌∷◌ c s) =
    let rest = parse_digits (acc * 10 + (code c - b'0')) s in
    if leb b'0' (code c) then (if leb (code c) b'9' then rest else none) else none

-- At least one digit.
parse_unsigned : String → Option ℕ
unfolding parse_digits
parse_unsigned s = if s == "" then none else parse_digits 0 s

-- Within a half of the type's range, below and above 0.
negated : ℕ → Option ℕ → Option ℤ
negated half none = none
negated half (some n) = if leb n half then some (neg n) else none

plain : ℕ → Option ℕ → Option ℤ
plain half none = none
plain half (some n) = if ltb n half then some (pos n) else none

-- `strconv.ParseInt(raw, 10, bits)`, where `half` is 2 ^ (bits - 1)
unfoldable pub parse_int : ℕ → String → Option ℤ
unfolding parse_unsigned negated plain
parse_int half String.[] = none
parse_int half (String.◌∷◌ c s) =
    if eqb (code c) b'-'
    then negated half (parse_unsigned s)
    else (if eqb (code c) b'+'
        then plain half (parse_unsigned s)
        else plain half (parse_unsigned (String.◌∷◌ c s)))

unfoldable pub parse_int32 : String → Option ℤ
unfolding parse_int
parse_int32 raw = parse_int (2 ^ 31) raw

-- The calls that record something: of services/sidecar/metrics and decisionlog, less latencies.
pub data Effect : Type 0 where
  decision : String → String → Effect
  would_reject : String → Effect
  in_flight : ℤ → Effect
  logged : String → String → String → String → Effect
  upstream_error release_result : String → Effect

-- `CoerceIfShadowOverridden`
unfoldable pub coerce_if_shadow_overridden : ProtoAction → Bool → ProtoAction
coerce_if_shadow_overridden action false = action
coerce_if_shadow_overridden ProtoAction.reject_429 true = ProtoAction.shadow_log
coerce_if_shadow_overridden ProtoAction.reject_503 true = ProtoAction.shadow_log
coerce_if_shadow_overridden action true = action

unfoldable pub resolve_priority : String → Bool → Priority → Priority
resolve_priority header_value route_matched default_priority =
    if header_value == "critical"
    then critical
    else (if header_value == "sheddable"
        then sheddable
        else (if route_matched then critical else default_priority))

unfoldable pub action_label : ProtoAction → String
action_label ProtoAction.allow = "allow"
action_label ProtoAction.reject_429 = "reject_429"
action_label ProtoAction.reject_503 = "reject_503"
action_label ProtoAction.shadow_log = "shadow_log"
action_label ProtoAction.queue = "queue"
action_label (ProtoAction.unrecognized n) = "unknown"

unfoldable pub priority_label : Priority → String
priority_label critical = "critical"
priority_label sheddable = "sheddable"

-- The RPCs of the core as the sidecar calls them; `none` and `false` are errors.
pub record Core : Type 1 where
  pub State : Type 0
  pub check_rate_limit : CheckRateLimitRequest → State → Option CheckRateLimitResponse × State
  pub release_concurrency : String → String → State → Bool × State
  pub refund_cost : String → ℤ → State → Bool × State
  pub set_dynamic_limit : String → ℤ → State → Option SetDynamicLimitResponse × State
