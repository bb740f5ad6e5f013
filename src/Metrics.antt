-- ===== src/Metrics.antt =====
-- services/core/metrics: the interceptor around each RPC (interceptor.go), and the gauge of the
-- configuration's hash (metrics.go). A counter is the list of the labels that were counted, the
-- latest first; latencies are left out.
pub mod Calls
pub mod Methods
pub mod Versions
use Prim.Native.Char.{code}
use rate_cap.Prelude.{
  ℕ, String, Bool, true, false, not, ◌&&◌, List, [], ◌∷◌, Option, none, some, if◌then◌else◌, ◌==◌,
  ◌≡◌, eqb, ltb, ◌⊎◌, inl, inr,
}
use rate_cap.Prelude.Int.{ℤ, pos}
use rate_cap.Process.Auth
use rate_cap.Process.Auth.{Metadata}

pub record Counters : Type 0 where
  pub grpc_requests_total : List (String × String)
  pub connection_security_total : List (String × String)

unfoldable pub record_grpc_request : String → String → Counters → Counters
record_grpc_request method code m = record m {
  grpc_requests_total = (method, code) ∷ m.grpc_requests_total;
}

unfoldable pub record_connection_security : String → String → Counters → Counters
record_connection_security transport client_cert m = record m {
  connection_security_total = (transport, client_cert) ∷ m.connection_security_total;
}

-- What follows the last "/", which is where `strings.LastIndex` finds it.
after_last_slash : String → Option String
after_last_slash String.[] = none
after_last_slash (String.◌∷◌ c s) =
    let rest = after_last_slash s in
    elim rest [ some r ↦ some r | none ↦ if eqb (code c) b'/' then some s else none ]

unfoldable pub method_name : String → String
unfolding after_last_slash
method_name full_method = elim (after_last_slash full_method) [ none ↦ full_method | some r ↦ r ]

-- What `peer.FromContext` finds: nothing, a peer without credentials or with others than TLS, or TLS
-- with a number of certificates.
pub data Peer : Type 0 where
  no_peer no_auth_info other_auth : Peer
  tls_info : ℕ → Peer

unfoldable pub classify_transport : Peer → String × String
classify_transport no_peer = ("plaintext", "n/a")
classify_transport no_auth_info = ("plaintext", "n/a")
classify_transport other_auth = ("plaintext", "n/a")
classify_transport (tls_info n) = if ltb 0 n then ("tls", "present") else ("tls", "absent")

-- A call, as the interceptors see it.
pub record CallInfo : Type 0 where
  pub full_method : String
  pub peer : Peer
  pub metadata : Option Metadata

-- `status_text` is `status.Code(err).String()` of the handler's result.
unfoldable pub unary_server_interceptor :
    {R S : Type 0} → (R → String) → CallInfo → (S → R × S) → S × Counters → R × S × Counters
unary_server_interceptor status_text info handler (s, m) =
    let (resp, s') = handler s in
    let (transport, client_cert) = classify_transport info.peer in
    (
      resp,
      s',
      record_connection_security transport client_cert
          (record_grpc_request (method_name info.full_method) (status_text resp) m),
    )

refused_or :
    {R S : Type 0} → (R × S × Counters) ⊎ String → S → Counters → (R ⊎ String) × S × Counters
refused_or (inl (resp, s', m')) s m = (inl resp, s', m')
refused_or (inr e) s m = (inr e, s, m)

-- `ChainUnaryInterceptor(auth, metrics)` of services/core/main.go: the first is the outer one. A
-- call that it refuses ends with the status Unauthenticated.
unfoldable pub serve_call :
    {R S : Type 0}
    → String
    → (R → String)
    → CallInfo
    → (S → R × S)
    → S × Counters
    → (R ⊎ String) × S × Counters
unfolding refused_or
serve_call secret status_text info handler (s, m) =
    refused_or
      (Auth.unary_server_interceptor secret info.metadata
        (unary_server_interceptor status_text info handler (s, m)))
      s m

-- A vector of gauges of the Prometheus library, by the one label of its series, and what its
-- documentation says.
pub record GaugeVec : Type 1 where
  pub State : Type 0
  pub series : State → String → Option ℤ
  pub delete_label_values : String → State → State
  pub set : String → ℤ → State → State

pub record GaugeLaws (g : GaugeVec) : Type 0 where
  pub series-delete :
      (h k : String) (s : g.State)
      → g.series (g.delete_label_values h s) k ≡ (if h == k then none else g.series s k)
  pub series-set :
      (h k : String) (v : ℤ) (s : g.State)
      → g.series (g.set h v s) k ≡ (if h == k then some v else g.series s k)

-- `currentConfigHash` and the gauge.
pub record Version (g : GaugeVec) : Type 0 where
  pub current_config_hash : String
  pub config_version_info : g.State

unfoldable pub record_config_version : {g : GaugeVec} → String → Version g → Version g
record_config_version {g} hash v =
    let info =
      if not (v.current_config_hash == "") && not (v.current_config_hash == hash)
      then g.delete_label_values v.current_config_hash v.config_version_info
      else v.config_version_info in
    record { current_config_hash = hash; config_version_info = g.set hash (pos 1) info }
