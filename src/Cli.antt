-- ===== src/Cli.antt =====
-- cli: the load generator `bench run`.
pub mod Root
pub mod Resources
pub mod Checks
pub mod Admin
pub mod Histogram
pub mod Bench
