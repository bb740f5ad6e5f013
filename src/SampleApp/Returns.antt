-- ===== src/SampleApp/Returns.antt =====
-- The demo gives back what its requests take (deploy/sampleapp/main.go).
use mathlib.Core.List.{Perm}
use rate_cap.Prelude.{
  ℕ, length, zero, suc, String, false, List, [], ◌∷◌, ◌++◌, some, ◌≡◌, refl, inl, inr, Bool-cases,
  All, eqb, ◌⊎◌,
}
use rate_cap.Prelude.Int.{ℤ}
use rate_cap.Limiter.{Error, Context, TokenReservation}
use rate_cap.Limiter.Concurrency.Ledger.{Answers, ledger_backend}
use rate_cap.Proto.{CheckRateLimitResponse}
use rate_cap.Sidecar.Http.{Core, HeaderName, HeaderValue, HttpResponse, code_of}
use rate_cap.Sidecar.Proxy
use rate_cap.Sidecar.Proxy.{Handler, Surroundings, Sidecar, request}
use rate_cap.Sdk.{read_reservations, release, release_one}
use rate_cap.Sdk.Requests.{SentRequest, acquire_request, read_check}
use rate_cap.Sdk.Client.{call_release}
use rate_cap.Sdk.Transport.{core_of, send, served, Front, Open, Open-less, send-LetThrough}
use rate_cap.Sdk.Returns.{
  listed, Returnable, serve_http-Owed, call_release-Perm, call_release-call_acquire,
}
use rate_cap.SampleApp.{
  App, next_count, fleet_key, shown, fleet_request, fleet_demo, slow_report, after_acquire,
  after_fleet_check, release_all, release_keys, release_keys_from, next_key,
}

-- The demo reads the reservations of a reply as the client library does.
release_keys_from-read_reservations :
    (fuel i : ℕ) (hs : List (HeaderName × HeaderValue))
    → release_keys_from fuel i hs ≡ read_reservations fuel i hs
unfolding release_keys_from read_reservations next_key
release_keys_from-read_reservations zero i hs = refl
release_keys_from-read_reservations (suc fuel) i hs =
    rw (release_keys_from-read_reservations fuel (suc i) hs) refl

release_keys-listed : (resp : HttpResponse) → release_keys resp ≡ listed resp
unfolding release_keys
release_keys-listed resp = release_keys_from-read_reservations _ 0 resp.headers

release_all-call_release :
    {S : Type 0} (out : SentRequest → S → (HttpResponse ⊎ Error) × S) (keys : List TokenReservation)
    (s : S)
    → release_all out keys s ≡ (call_release out keys s).1
unfolding release_all call_release release release_one
release_all-call_release out [] s = refl
release_all-call_release out (rk ∷ keys) s = release_all-call_release out keys _

module _ (replies : Answers) (ctx : Context) (mac : String → String → String) (signing_key : String)
    (h : Handler) (env : Surroundings) (clock : ℕ → ℤ × ℤ) where
  abbrev core : Core
  core = core_of (ledger_backend replies) ctx mac signing_key

  release_all-Perm :
      (resp : HttpResponse) (f : Front core) (base : List TokenReservation)
      → Open (length (listed resp)) f
      → Perm f.sidecar.core.store.held (listed resp ++ base)
      → All (Returnable replies ctx mac signing_key h env clock) (listed resp)
      → Perm
          (release_all (send core h env clock) (release_keys resp) f).sidecar.core.store.held
          base
  release_all-Perm resp f base o p ok =
      rw
        (release_keys-listed resp, release_all-call_release (send core h env clock) (listed resp) f)
        (call_release-Perm replies ctx mac signing_key h env clock (listed resp) base f o p ok).1

  after_fleet_check-Perm :
      (what : String) (resp : HttpResponse) (f : Front core) (base : List TokenReservation)
      → Open (length (listed resp)) f
      → Perm f.sidecar.core.store.held (listed resp ++ base)
      → All (Returnable replies ctx mac signing_key h env clock) (listed resp)
      → Perm
          (after_fleet_check (send core h env clock) what (inl resp) f).1.sidecar.core.store.held
          base
  unfolding after_fleet_check
  after_fleet_check-Perm what resp f base o p ok = elim (Bool-cases (eqb (code_of resp) 200)) [
    | inl e ↦ rw e (release_all-Perm resp f base o p ok)
    | inr e ↦ rw e (release_all-Perm resp f base o p ok)
  ]

  -- With Tiers 2 and 3 outside shadow mode, over a store whose releases succeed and whose failed
  -- acquires take no slot, the endpoint /fleet-demo leaves the slots held as they were, up to their
  -- order, whether the request is served or shed, whatever Tier 1 answers and whatever the
  -- parameters of the request are, if the limiter of the sidecar has a token for the check and one
  -- for each slot that the core lists in its reply, had it been asked, and each of these has a key
  -- that is not empty and a token that the core accepts.
  pub fleet_demo-Perm :
      (priority_param route_param : String) (a : App (Front core)) (resp : CheckRateLimitResponse)
      → a.outside.sidecar.core.tiers.concurrency_limiter.shadow_mode ≡ false
      → a.outside.sidecar.core.tiers.fleet_shedder.shadow_mode ≡ false
      → (core.check_rate_limit
          (request h (
            read_check (
              fleet_request
                (fleet_key (next_count a.fleet_demo_counter))
                priority_param
                route_param)))
          a.outside.sidecar.core).0
        ≡ some resp
      → All (Returnable replies ctx mac signing_key h env clock) resp.reservations
      → Open (suc (length resp.reservations)) a.outside
      → Perm
          (fleet_demo
            (send core h env clock)
            priority_param
            route_param
            a).1.outside.sidecar.core.store.held
          a.outside.sidecar.core.store.held
  unfolding fleet_demo served fleet_request
  fleet_demo-Perm priority_param route_param a resp live2 live3 e ok o =
      let sent =
        fleet_request (fleet_key (next_count a.fleet_demo_counter)) priority_param route_param in
      let f = a.outside in
      let owed =
        serve_http-Owed replies ctx mac signing_key h env clock (read_check sent) resp f.sidecar
          (record { live2 = live2; live3 = live3; replied = e; ok = ok }) in
      let reply = (Proxy.serve_http h env (read_check sent) f.sidecar).0 in
      let through = send-LetThrough h env clock sent f (length resp.reservations) o in
      let f' = (send core h env clock sent f).1 in
      rw (through.answer) (
        after_fleet_check-Perm (shown priority_param route_param) reply f' f.sidecar.core.store.held
          (Open-less (length resp.reservations) (length (listed reply)) f' owed.few
            through.open_for)
          (rw (through.after) owed.holds) owed.can_return)

  -- So does /slow-report, by the ticket of the client library.
  slow_report-Perm :
      (a : App (Front core)) (resp : CheckRateLimitResponse)
      → a.outside.sidecar.core.tiers.concurrency_limiter.shadow_mode ≡ false
      → a.outside.sidecar.core.tiers.fleet_shedder.shadow_mode ≡ false
      → (core.check_rate_limit
          (request h (read_check (acquire_request "demo-user-reports" [])))
          a.outside.sidecar.core).0
        ≡ some resp
      → All (Returnable replies ctx mac signing_key h env clock) resp.reservations
      → Open (suc (length resp.reservations)) a.outside
      → Perm
          (slow_report (send core h env clock) a).1.outside.sidecar.core.store.held
          a.outside.sidecar.core.store.held
  unfolding slow_report after_acquire
  slow_report-Perm a resp live2 live3 e ok o =
      let (ticket, got, given_back) =
        call_release-call_acquire replies ctx mac signing_key h env clock "demo-user-reports" []
          a.outside resp live2 live3 e ok o in
      rw got given_back.1
