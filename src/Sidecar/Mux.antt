-- ===== src/Sidecar/Mux.antt =====
-- services/sidecar/main.go: the mux that all requests go through, and /healthz. net/http matches the
-- paths; that it cleans a path first is left out.
pub mod Flood
use rate_cap.Prelude.{String, Bool, true, false, List, [], Option, none, some, if◌then◌else◌, ◌==◌}
use rate_cap.Prelude.Int.{ℤ}
use rate_cap.Sidecar.Http.{HttpResponse, http_error}
use rate_cap.Sidecar.RateLimit.{Limiter, middleware}

pub data Route : Type 0 where
  check release metrics healthz set_limit : Route

unfoldable pub route_of : String → Option Route
route_of path =
    if path == "/check"
    then some check
    else (if path == "/release"
        then some release
        else (if path == "/metrics"
            then some metrics
            else (if path == "/healthz"
                then some healthz
                else (if path == "/admin/set-limit" then some set_limit else none))))

module _ {S : Type 0} (handlers : Route → S → HttpResponse × S) where
  routed : Option Route → ℤ → ℤ → Limiter → S → HttpResponse × Limiter × S
  routed none now later l s = (http_error 404, l, s)
  routed (some r) now later l s = middleware (handlers r) now later l s

  -- `newTopMux`: one limiter for all routes, which reads the clock at `now`, and at `later` again
  -- where it refuses.
  unfoldable pub top_mux : String → ℤ → ℤ → Limiter → S → HttpResponse × Limiter × S
  unfolding routed
  top_mux path now later l s = routed (route_of path) now later l s

-- `connectivity.State` of the connection to the core
pub data Connectivity : Type 0 where
  idle connecting ready transient_failure shutdown : Connectivity

unfoldable pub healthz_handler : Connectivity → HttpResponse
healthz_handler transient_failure = http_error 503
healthz_handler shutdown = http_error 503
healthz_handler _ = record { headers = []; status = some 200 }
