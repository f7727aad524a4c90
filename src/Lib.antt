-- ===== src/Lib.antt =====
-- A model of the rate limit service: what a request to it is answered, and what it leaves on the
-- servers, in the local cache and in the statistics.
--
-- The parts, with the code that each follows (paths from the root of the repository):
--   Common      slices, strings, maps, and code that changes a state and may panic
--   Utils       src/utils: units, resets, names, closers, Tls (TlsConfigFromFiles, and verifyClient of
--               src/server)
--   Settings    src/settings: the structure and its defaults, Options (NewSettings), with Clients on it
--   Stats       src/stats: the counters by scope and name; an addition is an entry of a log
--   Request     the messages of the protocol
--   Config      src/config: Keys (validateYamlKeys), Load (loadDescriptors, loadConfig), Lookup
--               (GetLimit), Xds (the form of the xDS server), Errors, Found, RoundTrip,
--               Wildcards and Renamed
--   Limiter     src/limiter: CacheKey and Keys (cache keys), and the status of a descriptor
--               (GetResponseDescriptorStatus), with Decision, Status, Hits and Windows on
--               it; Batch (a specification of a call with many descriptors, for the backends)
--   Redis       src/redis: Driver (PipeDo), FixedCache (DoLimit), with Cache, Single, Keyed,
--               Quota and Window on them;
--               Batch (DoLimit on many descriptors), Pool (poolTrace), Setup
--               (NewClientImpl and NewRateLimiterCacheImplFromSettings)
--   Memcached   src/memcached: DoLimit and increaseAsync, Stats (the client that counts), Increase,
--               Servers (the list of servers and its refresh), Fetch and Batch (DoLimit and its job),
--               Pool (the goroutines of runAsync, a step relation), with Keeps and Ends on it
--   Server      src/server: Health (the health checker), Json (the endpoint /json), Setup
--               (newServer), Lifecycle (Start and one Stop, a step relation), with Stops on it
--   Service     src/service: Limits (constructLimitsToCheck), Worker (shouldRateLimitWorker and
--               ShouldRateLimit), Update (SetConfig), Start (NewService), with Codes, Answers, Errors and
--               Overrides on them
--   Provider    src/provider: the event that files or xDS resources lead to, with Orderly and Safety on it
--               and Forms on the two forms; Updates (the events of a file provider, one after the other, in
--               the service); Loop (initXdsClient and its goroutines, a step relation), with Runs
--               and Retries on it; ClientNode (getClientNode); Cert (the provider of certificates)
--   Srv         src/srv: ParseSrv and the servers that are found, with Parts and Order on them
--   Godogstats  src/godogstats: separateTags, the mogrifiers (Mogrifier), with Tags on them
--   Client      src/client_cmd: the flag of the descriptors, with Flags on it
--   ConfigCheck src/config_check_cmd: the command, with Agrees on it
--   Trace       src/trace: the provider of traces
--   Metrics     src/metrics: the interceptor, with Reports on it
--   Runner      src/service_cmd/runner: NewRunner, createLimiter, Run and Stop, with Starts on it
--   Examples    a limiter, servers and a configuration on which the theorems are applied
--
-- A request goes from the endpoint (Server.Json) or gRPC to Service.Worker, which looks its descriptors
-- up in the configuration (Config.Lookup), hands the limits to a backend through the interface
-- Limiter.Cache, and makes the answer of the statuses. Both backends use the limiter for the cache keys,
-- the local cache and the status of each key. A provider loads a configuration and sends it to
-- Service.Update, which installs it and reports to Server.Health. Runner puts the parts together from the
-- settings: the traces, the server with its provider, a backend, and the service.
--
-- State is passed along: `Go S A` is a call that changes a state `S` and returns or panics, and what was
-- written before a panic stays written. Panics carry the typed error of the code, or a text. Pointers to
-- limits are `LimitRef`, since a lookup can write to a limit that later lookups share. Numbers of 32 bits
-- wrap around (`add32`, `sub32`). Bytes are numbers. Loops are recursion on the slice; `format_uint` and
-- `split` use as fuel the number and the length, which they cannot use up.
--
-- Parameters are the servers of Redis and Memcached with their client libraries, the local cache, floating
-- point, the clock and the random numbers, the libraries for YAML, JSON and protocol buffers, the numbers
-- and names of the units of the protocol, and the directory that is watched. Where a theorem needs
-- documented behaviour of such a library, it is a hypothesis, and a test has an instance of it. The name
-- service, regular expressions of a configuration and the reader of the environment are parameters too.
--
-- Not modelled: connections, handshakes, the sending of traces and metrics, the statistics of the local
-- cache and logging, which are input and output or glue to libraries. Maps are ranged over
-- in a given order. Calls that hold a lock are steps; the goroutines of the xDS provider,
-- of the server and of the Memcached backend are step relations. Not modelled are other interleavings of
-- requests, those of the callbacks of a pool of Redis connections, and a second call of the server's Stop.
-- NewSettings may panic where it is called again, in SetConfig and in the providers.
pub mod Common
pub mod Utils
pub mod Stats
pub mod Request
pub mod Config
pub mod Limiter
pub mod Redis
pub mod Memcached
pub mod Server
pub mod Examples
pub mod Service
pub mod Provider
pub mod Srv
pub mod Godogstats
pub mod Client
pub mod ConfigCheck
pub mod Settings
pub mod Trace
pub mod Runner
pub mod Metrics
