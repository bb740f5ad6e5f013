-- ===== src/Sdk/Client.antt =====
-- packages/sdks/go/client.go: the calls of a client, over a transport that answers a request or
-- fails; a request that cannot be built fails as well.
use rate_cap.Prelude.{
  ℕ, suc, String, List, length, Option, none, some, if◌then◌else◌, eqb, ◌⊎◌, inl, inr,
}
use rate_cap.Prelude.Int.{ℤ}
use rate_cap.Limiter.{Error, TokenReservation}
use rate_cap.Sidecar.Http.{HttpResponse, code_of}
use rate_cap.Sdk.{Ticket, allow, acquire, release}
use rate_cap.Sdk.Requests.{
  SentRequest, CheckOption, allow_request, acquire_request, release_request, refund_request,
}

module _ {S : Type 0} (send : SentRequest → S → (HttpResponse ⊎ Error) × S) where
  unfoldable pub call_allow : String → List CheckOption → S → (Ticket ⊎ Error) × S
  call_allow key opts s = let (resp, s') = send (allow_request key opts) s in (allow key resp, s')

  -- One round more than there are headers is enough for the loop: see `Sdk.Rounds`.
  rounds : HttpResponse ⊎ Error → ℕ
  rounds (inl resp) = suc (length resp.headers)
  rounds (inr e) = 0

  unfoldable pub call_acquire : String → List CheckOption → S → (Ticket ⊎ Error) × S
  unfolding rounds
  call_acquire key opts s =
      let (resp, s') = send (acquire_request key opts) s in (acquire (rounds resp) key resp, s')

  -- `Ticket.Release`
  unfoldable pub call_release : List TokenReservation → S → List Error × S
  call_release rs s = release (λ r. send (release_request r)) rs s

  -- The text of a bad status leaves out its number.
  refund_error : HttpResponse ⊎ Error → Option Error
  refund_error (inl resp) = if eqb (code_of resp) 200 then none else some "ratecap: refund failed"
  refund_error (inr e) = some e

  -- `Ticket.Refund`, on the ticket's key
  unfoldable pub call_refund : String → ℤ → S → Option Error × S
  unfolding refund_error
  call_refund key amount s =
      let (resp, s') = send (refund_request key amount) s in (refund_error resp, s')
