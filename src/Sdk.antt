-- ===== src/Sdk.antt =====
-- packages/sdks/go/client.go: what the client makes of the replies of the sidecar. The transport of
-- HTTP is a parameter: a call is answered with a response, or fails.
pub mod Client
pub mod Requests
pub mod Received
pub mod Choices
pub mod Reservations
pub mod Returns
pub mod Rounds
pub mod Transport
use rate_cap.Prelude.{
  ℕ, zero, suc, String, Bool, true, false, List, [], ◌∷◌, ◌++◌, Option, none, some, if◌then◌else◌,
  ◌==◌, eqb, ◌⊎◌, inl, inr,
}
use rate_cap.Prelude.Int.{ℤ, pos, ltb_ℤ, ◌+ℤ◌, wrap64}
use rate_cap.Limiter.{Error, TokenReservation}
use rate_cap.Sidecar.Http.{
  HeaderName, named, indexed, HeaderValue, text, number, HttpResponse, code_of,
}

abbrev pub same_name : HeaderName → HeaderName → Bool
same_name (named a) (named b) = a == b
same_name (indexed a i) (indexed b j) = if a == b then eqb i j else false
same_name _ _ = false

-- `Header.Get`, which gives "" for a header that is missing; the last `Set` counts.
unfoldable pub get_header : HeaderName → List (HeaderName × HeaderValue) → Option HeaderValue
get_header name [] = none
get_header name ((n, v) ∷ hs) =
    let rest = get_header name hs in
    elim rest [ some w ↦ some w | none ↦ if same_name n name then some v else none ]

-- A header read as text, and as a number that is 0 where it is missing or no number.
abbrev pub text_of : Option HeaderValue → String
text_of (some (text s)) = s
text_of _ = ""

abbrev pub number_of : Option HeaderValue → ℤ
number_of (some (number n)) = n
number_of _ = pos 0

-- The loop that reads the reservations, from the index i on: it ends at the first index whose
-- token is missing or empty. The fuel bounds the rounds.
next_reservation : String → Option HeaderValue → List TokenReservation → List TokenReservation
next_reservation tok key rest =
    if tok == "" then [] else record { key = text_of key; token = tok } ∷ rest

unfoldable pub read_reservations : ℕ → ℕ → List (HeaderName × HeaderValue) → List TokenReservation
unfolding next_reservation
read_reservations zero i hs = []
read_reservations (suc fuel) i hs =
    let rest = read_reservations fuel (suc i) hs in
    next_reservation (text_of (get_header (indexed "Concurrency-Token-" i) hs))
      (get_header (indexed "Concurrency-Key-" i) hs) rest

pub record Ticket : Type 0 where
  pub allowed : Bool
  pub retry_after_ms : ℤ
  pub rate_limit_reset : ℤ
  pub rate_limit_limit : ℤ
  pub rate_limit_remaining : ℤ
  pub key : String
  pub reservations : List TokenReservation

-- What `Allow` returns, and the numbers of a `Ticket`: those of the headers, unless all is well.
unfoldable pub ticket_of : String → List TokenReservation → HttpResponse → Ticket
ticket_of key reservations resp =
    if eqb (code_of resp) 200
    then record {
      allowed = true;
      retry_after_ms = pos 0;
      rate_limit_reset = pos 0;
      rate_limit_limit = pos 0;
      rate_limit_remaining = pos 0;
      key = key;
      reservations = reservations;
    }
    else record {
      allowed = false;
      retry_after_ms = number_of (get_header (named "Retry-After-Ms") resp.headers);
      rate_limit_reset = number_of (get_header (named "RateLimit-Reset") resp.headers);
      rate_limit_limit = number_of (get_header (named "RateLimit-Limit") resp.headers);
      rate_limit_remaining = number_of (get_header (named "RateLimit-Remaining") resp.headers);
      key = key;
      reservations = reservations;
    }

-- The reply to the request, or the error of the transport, which both calls pass on. `Allow` holds
-- no reservation, since it asks the sidecar to skip them.
unfoldable pub allow : String → HttpResponse ⊎ Error → Ticket ⊎ Error
allow key (inl resp) = inl (ticket_of key [] resp)
allow key (inr e) = inr e

unfoldable pub acquire : ℕ → String → HttpResponse ⊎ Error → Ticket ⊎ Error
unfolding ticket_of
acquire fuel key (inl resp) = inl (ticket_of key (read_reservations fuel 0 resp.headers) resp)
acquire fuel key (inr e) = inr e

module _ {S : Type 0} (release_call : TokenReservation → S → (HttpResponse ⊎ Error) × S) where
  -- `releaseOne`: the error, if there is one; the text of a bad status leaves out its number.
  release_error : HttpResponse ⊎ Error → Option Error
  release_error (inl resp) = if eqb (code_of resp) 200 then none else some "ratecap: release failed"
  release_error (inr e) = some e

  unfoldable pub release_one : TokenReservation → S → Option Error × S
  unfolding release_error
  release_one r s = let (resp, s') = release_call r s in (release_error resp, s')

  abbrev pub add_error : Option Error → List Error → List Error
  add_error none es = es
  add_error (some e) es = e ∷ es

  -- `Release`: every reservation is tried, and the errors are joined.
  unfoldable pub release : List TokenReservation → S → List Error × S
  release [] s = ([], s)
  release (r ∷ rs) s =
      let (e, s') = release_one r s in let (es, s'') = release rs s' in (add_error e es, s'')

-- cost.go: `EstimateLLMCost`
unfoldable pub estimate_llm_cost : ℤ → ℤ → ℤ
estimate_llm_cost input_tokens max_tokens =
    let cost = wrap64 (input_tokens +ℤ max_tokens) in if ltb_ℤ cost (pos 0) then pos 0 else cost
