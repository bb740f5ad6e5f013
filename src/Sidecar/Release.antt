-- ===== src/Sidecar/Release.antt =====
-- services/sidecar/proxy/proxy.go: `ReleaseHandler.ServeHTTP`, the endpoint /release.
pub mod Laws
use rate_cap.Prelude.{
  String, Bool, true, false, not, ◌&&◌, List, [], ◌∷◌, ◌++◌, Option, none, some, if◌then◌else◌,
  ◌==◌,
}
use rate_cap.Prelude.Int.{ℤ, pos, leb_ℤ}
use rate_cap.Sidecar.Http.{
  HttpResponse, http_error, parse_int32, Effect, upstream_error, release_result, Core,
}

-- The method and the four headers that it reads, each empty if it is missing.
pub record ReleaseRequest : Type 0 where
  pub method : String
  pub concurrency_key : String
  pub concurrency_token : String
  pub refund_key : String
  pub refund_amount : String

abbrev pub ok : HttpResponse
ok = record { headers = []; status = some 200 }

module _ (c : Core) where
  after_refund : Bool × c.State → List Effect → HttpResponse × c.State × List Effect
  after_refund (true, s) es = (ok, s, es)
  after_refund (false, s) es = (http_error 500, s, upstream_error "refund_cost" ∷ es)

  refund_amount_of :
      String → Option ℤ → c.State → List Effect → HttpResponse × c.State × List Effect
  unfolding after_refund
  refund_amount_of key none s es = (http_error 400, s, es)
  refund_amount_of key (some amount) s es =
      if leb_ℤ amount (pos 0)
      then (http_error 400, s, es)
      else after_refund (c.refund_cost key amount s) es

  -- The second half, which refunds if a key for it is given.
  refund_part : ReleaseRequest → c.State → List Effect → HttpResponse × c.State × List Effect
  unfolding refund_amount_of
  refund_part r s es =
      if not (r.refund_key == "")
      then refund_amount_of r.refund_key (parse_int32 r.refund_amount) s es
      else (ok, s, es)

  after_release :
      ReleaseRequest → Bool × c.State → List Effect → HttpResponse × c.State × List Effect
  unfolding refund_part
  after_release r (true, s) es = refund_part r s (release_result "success" ∷ es)
  after_release r (false, s) es =
      (http_error 500, s, release_result "failure" ∷ upstream_error "release_concurrency" ∷ es)

  -- The reply, the core after the call, and what was recorded, newest first.
  unfoldable pub serve_http :
      ReleaseRequest → c.State → List Effect → HttpResponse × c.State × List Effect
  unfolding after_release refund_part
  serve_http r s es =
      if not (r.method == "POST")
      then (http_error 405, s, es)
      else (if (r.concurrency_key == "") && (r.refund_key == "")
          then (http_error 400, s, es)
          else (if not (r.concurrency_key == "")
              then after_release r (c.release_concurrency r.concurrency_key r.concurrency_token s)
                  es
              else refund_part r s es))
