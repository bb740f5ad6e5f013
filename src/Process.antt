-- ===== src/Process.antt =====
-- How the two processes start (services/core/main.go, services/sidecar/main.go), and the
-- authentication between them.
pub mod Auth
pub mod Environment
pub mod Certificates
pub mod CoreMain
pub mod SidecarMain
pub mod Telemetry
