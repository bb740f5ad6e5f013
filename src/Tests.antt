-- ===== src/Tests.antt =====
-- The theorems at concrete inputs.
mod Buckets
mod SlotSets
mod Limiters
mod Cores
mod Sidecars
mod Clients
mod Traffic
mod Processes
mod Benches
mod Returns
mod Redis
mod Commands
