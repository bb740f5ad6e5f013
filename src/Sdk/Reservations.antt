-- ===== src/Sdk/Reservations.antt =====
-- The reservations that the sidecar writes into headers reach the client
-- (services/sidecar/proxy/proxy.go, packages/sdks/go/client.go).
use mathlib.Core.List.{append-nil}
use rate_cap.Prelude.{
  ℕ, zero, suc, ◌≤◌, ◌<◌, String, false, List, [], ◌∷◌, ◌++◌, none, some, ◌≡◌, refl, ap, ◌∙◌, sym,
  ◌==◌, length, All, inl, inr, Option-cases, Bool-cases, arith,
}
use rate_cap.Proto.{ProtoAction, CheckRateLimitResponse}
use rate_cap.Limiter.{TokenReservation}
use rate_cap.Sidecar.Http.{HeaderName, named, indexed, HeaderValue, text, number, HttpResponse}
use rate_cap.Sidecar.Proxy.{reservation_headers, write_action, reset_seconds, bucket_headers}
use rate_cap.Sdk.{
  Ticket, ticket_of, acquire, get_header, text_of, read_reservations, next_reservation,
}

-- No header of the list is that of a reservation with an index of at least i.
abbrev pub Others : ℕ → List (HeaderName × HeaderValue) → Type 0
Others i hs =
    (j : ℕ)
    → i ≤ j
    → (get_header (indexed "Concurrency-Token-" j) hs ≡ none)
      × (get_header (indexed "Concurrency-Key-" j) hs ≡ none)

-- A later round writes under other indices.
get_header-earlier :
    (name : String) (j i : ℕ) (rs : List TokenReservation) (hs : List (HeaderName × HeaderValue))
    → j < i
    → get_header (indexed name j) hs ≡ none
    → get_header (indexed name j) (reservation_headers i rs ++ hs) ≡ none
unfolding get_header reservation_headers
get_header-earlier name j i [] hs h e = e
get_header-earlier name j i (r ∷ rs) hs h e =
    ground (arith, get_header-earlier name j (suc i) rs hs (omega (arith, h)) e)

get_header-own :
    (i : ℕ) (r : TokenReservation) (rs : List TokenReservation)
    (hs : List (HeaderName × HeaderValue))
    → Others i hs
    → (get_header (indexed "Concurrency-Token-" i) (reservation_headers i (r ∷ rs) ++ hs)
        ≡ some (text r.token))
      × (get_header (indexed "Concurrency-Key-" i) (reservation_headers i (r ∷ rs) ++ hs)
          ≡ some (text r.key))
unfolding get_header reservation_headers
get_header-own i r rs hs o =
    let t =
      get_header-earlier "Concurrency-Token-" i (suc i) rs hs (omega arith) (o i (omega arith)).0 in
    let k =
      get_header-earlier "Concurrency-Key-" i (suc i) rs hs (omega arith) (o i (omega arith)).1 in
    (ground (arith, t), ground (arith, k))

get_header-later :
    (name : String) (j i : ℕ) (r : TokenReservation) (rs : List TokenReservation)
    (hs : List (HeaderName × HeaderValue))
    → i < j
    → get_header (indexed name j) (reservation_headers i (r ∷ rs) ++ hs)
      ≡ get_header (indexed name j) (reservation_headers (suc i) rs ++ hs)
unfolding get_header reservation_headers
get_header-later name j i r rs hs h =
    elim (Option-cases (get_header (indexed name j) (reservation_headers (suc i) rs ++ hs))) [
      | inl e ↦ ground (arith, h)
      | inr (v, e) ↦ ground (arith, h)
    ]

-- What the loop reads, it reads at its index and later.
read_reservations-cong :
    (fuel i : ℕ) (hs hs' : List (HeaderName × HeaderValue))
    → ((name : String) (j : ℕ)
        → i ≤ j
        → get_header (indexed name j) hs ≡ get_header (indexed name j) hs')
    → read_reservations fuel i hs ≡ read_reservations fuel i hs'
unfolding read_reservations
read_reservations-cong zero i hs hs' same = refl
read_reservations-cong (suc fuel) i hs hs' same =
    ap
      (λ t.
        next_reservation (text_of t) (get_header (indexed "Concurrency-Key-" i) hs)
          (read_reservations fuel (suc i) hs))
      (same "Concurrency-Token-" i (omega arith))
    ∙ ap
        (λ k.
          next_reservation (text_of (get_header (indexed "Concurrency-Token-" i) hs')) k
            (read_reservations fuel (suc i) hs))
        (same "Concurrency-Key-" i (omega arith))
    ∙ ap
        (next_reservation (text_of (get_header (indexed "Concurrency-Token-" i) hs'))
          (get_header (indexed "Concurrency-Key-" i) hs'))
        (read_reservations-cong fuel (suc i) hs hs' (λ name j h. same name j (omega (arith, h))))

-- The loop ends on a token that is empty.
abbrev pub HasToken : TokenReservation → Type 0
HasToken r = (r.token == "") ≡ false

pub read_reservations-headers :
    (rs : List TokenReservation) (fuel i : ℕ) (hs : List (HeaderName × HeaderValue))
    → length rs ≤ fuel
    → All HasToken rs
    → Others i hs
    → read_reservations fuel i (reservation_headers i rs ++ hs) ≡ rs
unfolding read_reservations next_reservation
read_reservations-headers [] zero i hs l t o = refl
read_reservations-headers [] (suc fuel) i hs l t o =
    unfold reservation_headers in
    ap
      (λ x.
        next_reservation (text_of x) (get_header (indexed "Concurrency-Key-" i) hs)
          (read_reservations fuel (suc i) hs))
      (o i (omega arith)).0
read_reservations-headers (r ∷ rs) zero i hs l t o = absurd (omega (arith, l))
read_reservations-headers (r ∷ rs) (suc fuel) i hs l t o =
    let own = get_header-own i r rs hs o in
    let rest =
      read_reservations-cong fuel (suc i) (reservation_headers i (r ∷ rs) ++ hs)
        (reservation_headers (suc i) rs ++ hs) (λ name j h. get_header-later name j i r rs hs h)
      ∙ read_reservations-headers rs fuel (suc i) hs (omega (arith, l)) t.1
          (λ j h. o j (omega (arith, h))) in
    rw (own.0, own.1, t.0) (ap (λ x. r ∷ x) rest)

-- What a reply adds to the headers of its reservations.
headers_split :
    (a : ProtoAction) (resp : CheckRateLimitResponse)
    → (hs : List (HeaderName × HeaderValue)) × ((write_action a resp).headers
        ≡ reservation_headers 0 resp.reservations ++ hs)
      × Others 0 hs
unfolding write_action get_header
headers_split ProtoAction.allow resp =
    ([], sym (append-nil (reservation_headers 0 resp.reservations)), λ j h. (refl, refl))
headers_split ProtoAction.shadow_log resp =
    ([], sym (append-nil (reservation_headers 0 resp.reservations)), λ j h. (refl, refl))
headers_split ProtoAction.queue resp =
    ([], sym (append-nil (reservation_headers 0 resp.reservations)), λ j h. (refl, refl))
headers_split (ProtoAction.unrecognized n) resp =
    ([], sym (append-nil (reservation_headers 0 resp.reservations)), λ j h. (refl, refl))
headers_split ProtoAction.reject_503 resp =
    ((named "X-RateCap-Shed-Tier", text "3") ∷ [], refl, λ j h. (refl, refl))
headers_split ProtoAction.reject_429 resp = (
  (named "Retry-After-Ms", number resp.retry_after_ms)
      ∷ (named "RateLimit-Reset", number (reset_seconds resp.retry_after_ms))
      ∷ bucket_headers resp,
  refl,
  λ j h. elim (Bool-cases (resp.tier == "rate_limiter")) [
    | inl e ↦ (rw e refl, rw e refl)
    | inr e ↦ (rw e refl, rw e refl)
  ],
)

pub ticket_of-reservations :
    (key : String) (rs : List TokenReservation) (resp : HttpResponse)
    → (ticket_of key rs resp).reservations ≡ rs
unfolding ticket_of
ticket_of-reservations key rs resp = ground arith

pub read_reservations-write_action :
    (a : ProtoAction) (resp : CheckRateLimitResponse) (fuel : ℕ)
    → length resp.reservations ≤ fuel
    → All HasToken resp.reservations
    → read_reservations fuel 0 (write_action a resp).headers ≡ resp.reservations
read_reservations-write_action a resp fuel l t =
    ap (read_reservations fuel 0) (headers_split a resp).1
    ∙ read_reservations-headers resp.reservations fuel 0 (headers_split a resp).0 l t
        (headers_split a resp).2

-- The reservations of a reply to a check that the core answered are those that the client's ticket
-- holds, whatever the action is, in as many rounds as there are or more, if no token is empty.
pub acquire-write_action :
    (a : ProtoAction) (resp : CheckRateLimitResponse) (fuel : ℕ) (key : String)
    → length resp.reservations ≤ fuel
    → All HasToken resp.reservations
    → (ticket : Ticket) × (acquire fuel key (inl (write_action a resp)) ≡ inl ticket)
      × (ticket.reservations ≡ resp.reservations)
unfolding acquire
acquire-write_action a resp fuel key l t = (
  ticket_of key (read_reservations fuel 0 (write_action a resp).headers) (write_action a resp),
  refl,
  ticket_of-reservations key (read_reservations fuel 0 (write_action a resp).headers)
        (write_action a resp)
      ∙ read_reservations-write_action a resp fuel l t,
)
