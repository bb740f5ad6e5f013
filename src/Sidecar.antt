-- ===== src/Sidecar.antt =====
-- services/sidecar: the proxy between the SDKs and the core.
pub mod NegativeCache
pub mod Shedder
pub mod CriticalRoutes
pub mod Http
pub mod Proxy
pub mod Release
pub mod Admin
pub mod RateLimit
pub mod Mux
