-- ===== src/Lib.antt =====
-- RateCap: a rate limiter of four tiers. A client's SDK asks the sidecar (services/sidecar), which
-- sheds by its own load (Tier 4) and asks the core (services/core); the core runs the request
-- through a token bucket (Tier 1), a cap on the requests in flight for a key (Tier 2) and one on
-- the fleet's (Tier 3), whose state is in Redis.
--
-- - Limiter.antt, and the files below it: services/core/limiter. `Limiter.TokenBucket`,
--   `Limiter.Concurrency` and `Limiter.Fleet` are the tiers, each a record and its methods, and
--   `Limiter.Pipeline` is the loop over them. A tier reaches the store by the record `Backend`,
--   which stands for the interfaces of the package; the mutexes make each method one step. The
--   polling loop of the queue recurses on the number of ticks before the wait ends, which is part
--   of a call's `Context`.
-- - Store.antt: services/core/store. `Store.Redis` is Redis by the commands that are used, with
--   their documented laws; `Store.Redis.Table` is an instance in memory that meets them.
--   `Store.Bucket` is token_bucket.lua and refund_tokens.lua, with counts in thousandths of a
--   token, and `Store.Bucket.History` the limiter without a bucket that it is compared with;
--   `Store.Slots` is concurrent_limiter.lua, and `Store.Slots.Leases` its abstract view;
--   `Store.Token` is signToken and verifyToken, over any MAC; `Store.RedisStore` is redis.go, with
--   a link that may fail before or after a script has run, and other clients between two calls.
-- - Config.antt: services/core/config/config.go, and the wiring and the reload of
--   services/core/main.go; `Config.Watcher` is the loop of services/core/config/watcher.go.
-- - Proto.antt: the messages of proto/ratecap/v1. Server.antt: the RPCs of
--   services/core/grpcserver/server.go.
-- - Sidecar.antt: services/sidecar. `Sidecar.Shedder` is worker/shedder.go, alone and, in
--   `Sidecar.Shedder.Interleaving`, by atomic steps of many goroutines; `Sidecar.NegativeCache`,
--   `Sidecar.CriticalRoutes`, `Sidecar.Admin` and `Sidecar.RateLimit` are the packages of these
--   names; `Sidecar.Proxy` and `Sidecar.Release` are the two handlers of proxy/proxy.go;
--   `Sidecar.Mux` is the routing around them; `Sidecar.Http` holds what they share. The core is
--   the record `Core` of its RPCs. The float64 values of the rate limiter are exact fractions.
-- - Process.antt: the start of the two processes. `Process.Environment` is what they read of the
--   environment, `Process.CoreMain` and `Process.SidecarMain` are the guards and the listeners of
--   services/core/main.go and services/sidecar/main.go, `Process.Auth` the interceptors of the
--   shared secret, `Process.Certificates` the reload of a key pair, and `Process.Telemetry` the
--   choice of an exporter (services/core/otelinit, whose copy in services/sidecar is the same).
-- - Metrics.antt: services/core/metrics, as lists of labels that were counted, and the chain of the
--   two interceptors around an RPC.
-- - Cli.antt: cli/cmd. `Cli.Root` is the exit code of a command, `Cli.Admin` (with the
--   endpoint that it calls, behind the limiter of the sidecar) and `Cli.Checks` are
--   the commands for operators, and `Cli.Resources` the snapshots around a run. `Cli.Histogram` is
--   the histogram of latencies, with the index of a sample's bucket, which the code takes by a
--   logarithm, and the rank as parameters; `Cli.Bench` is the load generator, in turns of its
--   workers and its reporter, and `Cli.Bench.Command` what it prints.
-- - Sdk.antt: packages/sdks/go. `Sdk.Requests` is the options and the requests sent, Sdk.antt the
--   replies received, `Sdk.Client` the methods over any transport. The loop of Acquire over the
--   headers runs on fuel; `Sdk.Reservations` shows that as many rounds as there are reservations
--   are enough, and `Sdk.Rounds` that one round more than there are headers is. `Sdk.Transport`
--   puts the client, the sidecar behind its limiter, and the core together, over links that deliver
--   what is sent; `Sdk.Choices` describes the options that a caller chooses.
-- - SampleApp.antt: the demo of deploy/sampleapp, over the same transport as the client library.
-- - Prelude.antt: shared names, numbers and lemmas. Tests.antt: the theorems at concrete inputs.
--
-- An int of Go is an integer whose wrap-around is written out where it can occur. Times are
-- arguments: of the clock of a call, in its own unit. A query and the headers arrive as they were
-- set, which is the work of net/http.
--
-- Not modelled: parsing of YAML, JSON and arguments, crypto/tls and the servers themselves, the
-- libraries for metrics and tracing and what only feeds them in the sidecar, latencies, the Python
-- SDK; rounding of floats and of Lua's doubles (see Store/Bucket.antt); the mathematics of the MAC.
pub mod Prelude
pub mod Limiter
pub mod Store
pub mod Config
pub mod Proto
pub mod Server
pub mod Sidecar
mod Tests
pub mod Process
pub mod Cli
pub mod SampleApp
pub mod Metrics
pub mod Sdk
