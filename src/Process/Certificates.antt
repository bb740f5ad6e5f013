-- ===== src/Process/Certificates.antt =====
-- services/core/tlsconfig and services/sidecar/tlsconfig: the loading of certificates, and the loop
-- that reloads a pair. crypto/tls, the file system and its watcher are not part of the repository:
-- `Cert` is a pair as it is parsed, and the loop is driven by the events that the watcher sends.
use rate_cap.Prelude.{
  String, Bool, true, false, List, [], ◌∷◌, Option, none, some, if◌then◌else◌, ◌==◌, ◌||◌, ◌≡◌,
  arith,
}

pub data ClientAuth : Type 0 where
  require_and_verify verify_if_given : ClientAuth

-- What the loop of `watchCert` may receive: an event for a file, with what `LoadX509KeyPair` gives if
-- it is called now; an error; the closing of a channel; the call of `stop`.
pub data Event (Cert : Type 0) : Type 0 where
  file_event : String → Option Cert → Event Cert
  watch_error closed stopped : Event Cert

-- The pair that handshakes use, and whether the goroutine has returned.
pub record Reloadable (Cert : Type 0) : Type 0 where
  pub current : Cert
  pub returned : Bool

-- What `Load` makes of it: the pool of authorities is loaded once.
pub record TlsConfig (Cert : Type 0) : Type 0 where
  pub certificates : Reloadable Cert
  pub client_auth : ClientAuth

module _ {Cert : Type 0} where
  -- `reload`, which keeps the pair where the files cannot be loaded.
  reload : Option Cert → Reloadable Cert → Reloadable Cert
  reload none r = r
  reload (some cert) r = record r { current = cert }

  receive : String → String → Event Cert → Reloadable Cert → Reloadable Cert
  unfolding reload
  receive cert_path key_path (file_event name pair) r =
      if (name == cert_path) || (name == key_path) then reload pair r else r
  receive cert_path key_path watch_error r = r
  receive cert_path key_path closed r = record r { returned = true }
  receive cert_path key_path stopped r = record r { returned = true }

  unfoldable pub step : String → String → Event Cert → Reloadable Cert → Reloadable Cert
  unfolding receive
  step cert_path key_path e r = if r.returned then r else receive cert_path key_path e r

  unfoldable pub run : String → String → List (Event Cert) → Reloadable Cert → Reloadable Cert
  run cert_path key_path [] r = r
  run cert_path key_path (e ∷ es) r = run cert_path key_path es (step cert_path key_path e r)

  -- `watchCert`: the first load, and whether the watcher can be set up.
  unfoldable pub watch_cert : Option Cert → Bool → Option (Reloadable Cert)
  watch_cert none watcher_ok = none
  watch_cert (some cert) watcher_ok =
      if watcher_ok then some (record { current = cert; returned = false }) else none

  -- `Load` of the core, for the file of authorities: `none` if it cannot be read, and whether it
  -- holds a certificate. Where it fails, the loop has been stopped.
  with_authorities : Option Bool → Reloadable Cert → Option (TlsConfig Cert)
  with_authorities (some true) r =
      some (record { certificates = r; client_auth = require_and_verify })
  with_authorities _ r = none

  from_watch : Option Bool → Option (Reloadable Cert) → Option (TlsConfig Cert)
  unfolding with_authorities
  from_watch ca none = none
  from_watch ca (some r) = with_authorities ca r

  unfoldable pub load : Option Cert → Bool → Option Bool → Option (TlsConfig Cert)
  unfolding from_watch watch_cert
  load pair watcher_ok ca = from_watch ca (watch_cert pair watcher_ok)

  -- The pair that the last event for one of the two files has brought until the loop ends, `cert` if
  -- none has.
  pub last_good : String → String → Cert → List (Event Cert) → Cert
  last_good cert_path key_path cert [] = cert
  last_good cert_path key_path cert (file_event name (some pair) ∷ es) =
      last_good cert_path key_path
        (if (name == cert_path) || (name == key_path) then pair else cert) es
  last_good cert_path key_path cert (closed ∷ es) = cert
  last_good cert_path key_path cert (stopped ∷ es) = cert
  last_good cert_path key_path cert (_ ∷ es) = last_good cert_path key_path cert es

  -- Until it ends, the loop serves the pair that was last loaded.
  pub last_good-run :
      (cert_path key_path : String) (es : List (Event Cert)) (cert : Cert) (b : Bool)
      → (run cert_path key_path es (record { current = cert; returned = b })).current
        ≡ (if b then cert else last_good cert_path key_path cert es)
  unfolding run step receive reload last_good
  last_good-run cert_path key_path [] cert b = ground arith
  last_good-run cert_path key_path (e ∷ es) cert true =
      last_good-run cert_path key_path es cert true
  last_good-run cert_path key_path (file_event name none ∷ es) cert false = ground (
    arith,
    last_good-run cert_path key_path es cert false,
    last_good-run cert_path key_path es cert false,
  )
  last_good-run cert_path key_path (file_event name (some pair) ∷ es) cert false = ground (
    arith,
    last_good-run cert_path key_path es cert false,
    last_good-run cert_path key_path es pair false,
  )
  last_good-run cert_path key_path (watch_error ∷ es) cert false =
      last_good-run cert_path key_path es cert false
  last_good-run cert_path key_path (closed ∷ es) cert false =
      last_good-run cert_path key_path es cert true
  last_good-run cert_path key_path (stopped ∷ es) cert false =
      last_good-run cert_path key_path es cert true
