-- ===== src/Sidecar/Release/Laws.antt =====
-- When /release answers that all is well, and what a failure leaves done
-- (services/sidecar/proxy/proxy.go).
use rate_cap.Prelude.{
  true, false, List, none, some, ◌≡◌, ap, inl, inr, Bool-cases, Option-cases, ◌∷◌, ◌==◌, arith,
}
use rate_cap.Prelude.Int.{ℤ, pos, leb_ℤ}
use rate_cap.Sidecar.Http.{HttpResponse, http_error, parse_int32, Effect, release_result, Core}
use rate_cap.Sidecar.Release.{
  ReleaseRequest, ok, serve_http, after_release, refund_part, refund_amount_of, after_refund,
}

module _ (c : Core) (r : ReleaseRequest) (s : c.State) (es : List Effect) where
  -- The call that releases the slot, where a key for it is given.
  abbrev Released : Type 0
  Released =
      (r.concurrency_key == "") ≡ false
      → (c.release_concurrency r.concurrency_key r.concurrency_token s).0 ≡ true

  -- The call that refunds: the amount is a positive int32, and the core accepts it.
  abbrev Refunded : Type 0
  Refunded =
      (r.refund_key == "") ≡ false
      → (amount : ℤ) × (s' : c.State) × (parse_int32 r.refund_amount ≡ some amount)
        × (leb_ℤ amount (pos 0) ≡ false)
        × ((c.refund_cost r.refund_key amount s').0 ≡ true)

  refund_part-ok : (s' : c.State) (es' : List Effect) → (refund_part c r s' es').0 ≡ ok → Refunded
  unfolding refund_part refund_amount_of after_refund
  refund_part-ok s' es' h = λ k. elim (Option-cases (parse_int32 r.refund_amount)) [
    | inl n ↦ absurd (ground (arith, ap HttpResponse.status h))
    | inr (amount, p) ↦ (
      amount,
      s',
      p,
      ground (arith, ap HttpResponse.status h),
      ground (arith, ap HttpResponse.status h),
    )
  ]

  -- The endpoint answers 200 only if all that was asked for was done: the slot was released, and
  -- the refund, of a positive int32, was accepted.
  pub serve_http-ok : (serve_http c r s es).0 ≡ ok → Released × Refunded
  unfolding serve_http after_release
  serve_http-ok h =
      let p = c.release_concurrency r.concurrency_key r.concurrency_token s in
      (
        ground (arith, ap HttpResponse.status h),
        elim (Bool-cases (r.concurrency_key == "")) [
          | inl k ↦ ground (arith, ap HttpResponse.status h, refund_part-ok s es)
          | inr k ↦
              ground (
                arith,
                ap HttpResponse.status h,
                refund_part-ok p.1 (release_result "success" ∷ es),
              )
        ],
      )

  -- A request that names a slot and a refund without a proper amount is answered with a 400 when
  -- the slot has already been released: the core is as the release left it.
  pub bad_amount_releases :
      (r.method == "POST") ≡ true
      → (r.concurrency_key == "") ≡ false
      → (r.refund_key == "") ≡ false
      → parse_int32 r.refund_amount ≡ none
      → (c.release_concurrency r.concurrency_key r.concurrency_token s).0 ≡ true
      → let p = serve_http c r s es in
        (p.0 ≡ http_error 400)
        × (p.1 ≡ (c.release_concurrency r.concurrency_key r.concurrency_token s).1)
  unfolding serve_http after_release refund_part refund_amount_of
  bad_amount_releases m k f a e = ground arith
