-- ===== src/Cli/Checks.antt =====
-- cli/cmd/config_validate.go and cli/cmd/tls.go: the two commands that check a file before it is
-- deployed. The file system, YAML, PEM and X.509 are parameters.
use Prim.Native.String.{◌++◌ as ◌+++◌}
use rate_cap.Prelude.{String, [], ◌∷◌, Option, none, some, ◌⊎◌, inl, inr}
use rate_cap.Limiter.{Error}
use rate_cap.Config.{Config, validate}
use rate_cap.Cli.Root.{Outcome, failing, Writer, write_all}

module _ (load : String → Config ⊎ Error) (out : Writer) where
  after_validate : String → Option Error → Outcome
  after_validate path (some e) = failing ("invalid config: " +++ e)
  after_validate path none = write_all out ((path +++ " is valid\n") ∷ [])

  after_load : String → Config ⊎ Error → Outcome
  unfolding after_validate
  after_load path (inr e) = failing ("loading " +++ (path +++ (": " +++ e)))
  after_load path (inl cfg) = after_validate path (validate cfg)

  unfoldable pub config_validate : String → Outcome
  unfolding after_load
  config_validate path = after_load path (load path)

-- What the command reads of a certificate: its names, as they are printed, and whether a host is
-- among them.
pub record Certificate : Type 0 where
  pub dns_names : String
  pub verify_hostname : String → Option Error

-- A file, the first block of PEM in it, and the certificate in that.
pub record CertificateFiles : Type 0 where
  pub read_file : String → String ⊎ Error
  pub pem_decode : String → Option String
  pub parse_certificate : String → Certificate ⊎ Error

-- The rest of the message explains the error.
abbrev san_hint : String
san_hint =
    " — this is the exact failure mode Helm chart deployments hit when demo certs (SAN: core/sidecar) are reused with a real release name, and it produces no server-side log"

-- `%q`, the quoted form of a text, is a parameter as well.
module _ (files : CertificateFiles) (quote : String → String) (out : Writer)
    (cert_path expected_host : String) where
  after_verify : Certificate → Option Error → Outcome
  after_verify cert (some e) = failing (
      cert_path
      +++ ("'s SAN list "
          +++ (cert.dns_names
              +++ (" does not cover " +++ (quote expected_host +++ (": " +++ (e +++ san_hint)))))))
  after_verify cert none = write_all out (
      (cert_path
        +++ (": SAN list "
            +++ (cert.dns_names +++ (" covers " +++ (quote expected_host +++ "\n")))))
      ∷ [])

  after_parse : Certificate ⊎ Error → Outcome
  unfolding after_verify
  after_parse (inr e) = failing ("parsing certificate in " +++ (cert_path +++ (": " +++ e)))
  after_parse (inl cert) = after_verify cert (cert.verify_hostname expected_host)

  after_decode : Option String → Outcome
  unfolding after_parse
  after_decode none = failing (cert_path +++ " does not contain a valid PEM block")
  after_decode (some block) = after_parse (files.parse_certificate block)

  after_file : String ⊎ Error → Outcome
  unfolding after_decode
  after_file (inr e) = failing ("reading " +++ (cert_path +++ (": " +++ e)))
  after_file (inl text) = after_decode (files.pem_decode text)

  unfoldable pub tls_check : Outcome
  unfolding after_file
  tls_check = after_file (files.read_file cert_path)
