-- ===== src/Process/Telemetry.antt =====
-- services/core/otelinit/otelinit.go: where the spans of a process go. The parsing of addresses and
-- the SDK of OpenTelemetry are parameters.
use rate_cap.Prelude.{
  String, Bool, true, false, Option, none, some, if◌then◌else◌, ◌==◌, ◌⊎◌, inl, inr,
}
use rate_cap.Limiter.{Error}

-- `net.SplitHostPort`, which gives a host or fails, and `net.ParseIP` with `IsLoopback`.
pub record Addresses : Type 0 where
  pub split_host_port : String → Option String
  pub loopback_ip : String → Option Bool

host_of : String → Option String → String
host_of endpoint none = endpoint
host_of endpoint (some host) = host

ip_is_loopback : Option Bool → Bool
ip_is_loopback none = false
ip_is_loopback (some b) = b

unfoldable pub is_loopback_endpoint : Addresses → String → Bool
unfolding host_of ip_is_loopback
is_loopback_endpoint a endpoint =
    let host = host_of endpoint (a.split_host_port endpoint) in
    if host == "localhost" then true else ip_is_loopback (a.loopback_ip host)

-- Spans are kept in the process, or leave it in plaintext or by TLS.
pub data Exporter : Type 0 where
  no_exporter : Exporter
  insecure with_tls : String → Exporter

abbrev exporter_for : Addresses → String → Exporter
exporter_for a endpoint =
    if is_loopback_endpoint a endpoint then insecure endpoint else with_tls endpoint

-- `Init`, for the value of RATECAP_OTEL_EXPORTER_ENDPOINT: the error of the resource, and that of an
-- exporter that cannot be made.
after_exporter : Exporter → Option Error → Exporter ⊎ Error
after_exporter x none = inl x
after_exporter x (some e) = inr e

after_resource : Addresses → (Exporter → Option Error) → String → Option Error → Exporter ⊎ Error
unfolding after_exporter
after_resource a make endpoint (some e) = inr e
after_resource a make endpoint none =
    if endpoint == ""
    then inl no_exporter
    else after_exporter (exporter_for a endpoint) (make (exporter_for a endpoint))

unfoldable pub init :
    Addresses → Option Error → (Exporter → Option Error) → String → Exporter ⊎ Error
unfolding after_resource
init a resource_error make endpoint = after_resource a make endpoint resource_error
