-- ===== src/Store.antt =====
-- services/core/store: Redis as an interface, the Lua scripts that run in it, and `RedisStore`.
pub mod Redis
pub mod Bucket
pub mod Slots
pub mod Token
pub mod RedisStore
