-- ===== src/Runner.antt =====
-- src/service_cmd/runner/runner.go. The process from its settings: the sink of the statistics, the server,
-- the backend and the service, and Stop. The libraries are parameters, and so is the first event that the
-- provider sends.
pub mod Starts
use api_ratelimit.Service.Start.{without_config, new_service}
use api_ratelimit.Memcached.Stats.{collect_stats, Counted}
use api_ratelimit.Redis.FixedCache.{FixedCache}
use api_ratelimit.Redis.Driver.{ClientImpl}
use api_ratelimit.Common.{
  if◌then◌else◌, nat_eq, GoString, text, ◌==◌, returns, ℕ, Bool, false, not, ◌||◌, Option, none,
  some, List, [], ◌∷◌, map,
}
use api_ratelimit.Common.Process.{and_run, call_in_process, or_fatal, Process, runs, fatal}
use api_ratelimit.Settings.Options.{grpc_unary_interceptor}
use api_ratelimit.Settings.{Settings}
use api_ratelimit.Server.Setup.{
  add_debug_http_endpoint, add_json_handler, new_server, dump_config, SetupLibrary,
  Server as HttpServer,
}
use api_ratelimit.Service.Update.{
  ConfigUpdateEvent, Settings as EnvSettings, Server as ServiceServer,
}
use api_ratelimit.Trace.{init_production_trace_provider, TraceLibrary, TraceProvider}
use api_ratelimit.Limiter.{LocalCache, Floats, BaseRateLimiter}
use api_ratelimit.Redis.Setup.{new_cache_from_settings, PoolSettings, RadixLibrary}
use api_ratelimit.Memcached.{MemcacheImpl, Client as MemcacheClient}
use api_ratelimit.Memcached.Servers.{new_memcache_from_settings, ServerLibrary}
use api_ratelimit.Srv.{AddrsLookup}

-- NewRunner: where the statistics go
pub data Sink : Type 0 where
  null_sink dogstatsd_sink tcp_statsd_sink logging_sink : Sink

-- runner.go, NewRunner, with whether the DogStatsD sink can be made
unfoldable pub new_runner_sink : {C P F I : Type 0} → Bool → Settings C P F I → Process Sink
new_runner_sink dogstatsd_ok s =
    if s.disable_stats
    then runs null_sink
    else if s.use_dog_statsd
    then (and_run (or_fatal (not s.use_statsd))
        λ _. and_run (or_fatal dogstatsd_ok) λ _. runs dogstatsd_sink)
    else if s.use_statsd
    then runs tcp_statsd_sink
    else runs logging_sink

-- The libraries: of the backends, of the local cache, of the server, of traces and of the log. `N` is a
-- list of Memcached servers and `K` a client of them.
pub record RunnerLibrary (L F R M N K C I : Type 0) : Type 0 where
  pub radix : RadixLibrary R
  pub memcache : ServerLibrary N K
  pub memcache_client : K → MemcacheClient M
  pub parse_value : GoString → Option ℕ
  pub dns : AddrsLookup
  pub local_cache : LocalCache L
  pub floats : Floats F
  pub server : SetupLibrary C
  pub tracing : TraceLibrary
  pub is_log_level : GoString → Bool
  pub reporter : I

-- What createLimiter returns: a cache with the clients that its closer closes, in order.
pub data Backend (L F R M : Type 0) : Type 0 where
  redis_backend : FixedCache L F R → List (ClientImpl R) → Backend L F R M
  memcache_backend : MemcacheImpl L F (Counted M) → Backend L F R M

module _ {L F R M : Type 0} where
  abbrev pub as_redis : FixedCache L F R × List (ClientImpl R) → Backend L F R M
  as_redis (cache, closers) = redis_backend cache closers

  abbrev pub closers_of : Backend L F R M → List (ClientImpl R)
  closers_of (redis_backend cache closers) = closers
  closers_of (memcache_backend cache) = []

-- A server that is ready to start.
pub record Running (L F R M C P I : Type 0) : Type 0 where
  pub trace : Option (TraceProvider F)
  pub server : HttpServer C P I
  pub backend : Backend L F R M
  pub service : ServiceServer (Unit {0})

module _ {C P F I : Type 0} where
  abbrev pub redis_pool : Settings C P F I → PoolSettings
  redis_pool s = record {
    use_tls = s.redis_tls;
    auth = s.redis_auth;
    socket_type = s.redis_socket_type;
    redis_type = s.redis_type;
    url = s.redis_url;
    pool_size = s.redis_pool_size;
    pipeline_window = s.redis_pipeline_window;
    pipeline_limit = s.redis_pipeline_limit;
  }

  abbrev pub redis_per_second_pool : Settings C P F I → PoolSettings
  redis_per_second_pool s = record {
    use_tls = s.redis_per_second_tls;
    auth = s.redis_per_second_auth;
    socket_type = s.redis_per_second_socket_type;
    redis_type = s.redis_per_second_type;
    url = s.redis_per_second_url;
    pool_size = s.redis_per_second_pool_size;
    pipeline_window = s.redis_per_second_pipeline_window;
    pipeline_limit = s.redis_per_second_pipeline_limit;
  }

  -- What SetConfig reads of the settings.
  abbrev pub env_settings : Settings C P F I → EnvSettings
  env_settings s = record {
    global_shadow_mode = s.global_shadow_mode;
    response_headers_enabled = s.rate_limit_response_headers_enabled;
    header_limit = s.header_ratelimit_limit;
    header_remaining = s.header_ratelimit_remaining;
    header_reset = s.header_ratelimit_reset;
  }

module _ {L F R M N K C P I : Type 0} (library : RunnerLibrary L F R M N K C I) where
  abbrev pub base_limiter : Settings C P F I → BaseRateLimiter L F
  base_limiter s = record {
    cache = library.local_cache;
    floats = library.floats;
    near_limit_ratio = s.near_limit_ratio;
    expiration_jitter_max_seconds = s.expiration_jitter_max_seconds;
    prefix = s.cache_key_prefix;
  }

  -- memcached/cache_impl.go, NewRateLimitCacheImpl and NewRateLimitCacheImplFromSettings
  unfoldable pub new_memcache_from_client : Settings C P F I → K → MemcacheImpl L F (Counted M)
  new_memcache_from_client s client = record {
    client = collect_stats (library.memcache_client client);
    parse_value = library.parse_value;
    auto_flush = false;
    base = base_limiter s;
  }

  -- runner.go, createLimiter
  unfoldable pub create_limiter : Settings C P F I → Process (Backend L F R M)
  unfolding new_cache_from_settings new_memcache_from_settings new_memcache_from_client
  create_limiter s =
      if s.backend_type == text "redis" || s.backend_type == []
      then (and_run
          (call_in_process (
            new_cache_from_settings library.radix s.redis_per_second (redis_per_second_pool s)
              (redis_pool s) s.stop_cache_key_increment_when_overlimit (base_limiter s)))
          λ made. runs (as_redis made))
      else if s.backend_type == text "memcache"
      then (and_run
          (call_in_process (
            new_memcache_from_settings library.memcache s.memcache_srv s.memcache_host_port
              library.dns))
          λ client. runs (memcache_backend (new_memcache_from_client s client)))
      else fatal

  -- Run: tracing
  unfoldable pub start_tracing : Settings C P F I → Process (Option (TraceProvider F))
  unfolding init_production_trace_provider
  start_tracing s =
      if s.tracing_enabled
      then (and_run
          (init_production_trace_provider library.tracing s.tracing_exporter_protocol
            s.tracing_service_name s.tracing_service_namespace s.tracing_service_instance_id
            s.tracing_sampling_rate)
          λ provider. runs (some provider))
      else runs none

  -- Run: the server, with a local cache if it has a size, and the interceptor of the metrics
  unfoldable pub start_server : Settings C P F I → Process (HttpServer C P I)
  unfolding new_server grpc_unary_interceptor
  start_server s =
      new_server library.server s (not (nat_eq s.local_cache_size_in_bytes 0))
        (grpc_unary_interceptor library.reporter ∷ [])

  -- Run: the service. The settings that SetConfig reads again are those that Run has.
  unfoldable pub start_service :
      Settings C P F I
      → HttpServer C P I
      → (ℕ → ℕ)
      → ConfigUpdateEvent
      → Process (ServiceServer (Unit {0}))
  unfolding new_service
  start_service s server clock event = call_in_process (
      new_service (without_config tt clock s.global_shadow_mode server.health)
        s.force_start_without_initial_config s.healthy_with_at_least_one_config_loaded
        (returns (env_settings s)) event)

  abbrev pub finish_server : HttpServer C P I → Process (HttpServer C P I)
  finish_server server =
      and_run
        (call_in_process (
          add_debug_http_endpoint (text "/rlconfig")
            (text "print out the currently loaded configuration for debugging") dump_config server))
        λ server. runs (add_json_handler server)

  -- Run, from the service on
  abbrev pub with_service :
      Option (TraceProvider F)
      → HttpServer C P I
      → Backend L F R M
      → ServiceServer (Unit {0})
      → Process (Running L F R M C P I)
  with_service trace server backend service = and_run (finish_server server) λ server'.
      runs (record { trace = trace; server = server'; backend = backend; service = service })

  -- Run, from the server on
  abbrev pub with_server :
      Settings C P F I
      → (ℕ → ℕ)
      → ConfigUpdateEvent
      → Option (TraceProvider F)
      → HttpServer C P I
      → Process (Running L F R M C P I)
  with_server s clock event trace server =
      and_run (create_limiter s)
        λ backend. and_run (start_service s server clock event) (with_service trace server backend)

  -- Run, from the level of the log on
  abbrev pub with_trace :
      Settings C P F I
      → (ℕ → ℕ)
      → ConfigUpdateEvent
      → Option (TraceProvider F)
      → Process (Running L F R M C P I)
  with_trace s clock event trace =
      and_run (or_fatal (library.is_log_level s.log_level))
        λ _. and_run (start_server s) (with_server s clock event trace)

  -- runner.go, Run, up to the call of Start
  unfoldable pub run :
      Settings C P F I → (ℕ → ℕ) → ConfigUpdateEvent → Process (Running L F R M C P I)
  unfolding start_tracing start_server create_limiter start_service add_debug_http_endpoint
      add_json_handler
  run s clock event = and_run (start_tracing s) (with_trace s clock event)

-- What Stop does, in order: the server is stopped, and a client is closed.
pub data StopEvent (R : Type 0) : Type 0 where
  server_stops : StopEvent R
  client_closes : ClientImpl R → StopEvent R

module _ {L F R M C P I : Type 0} where
  -- runner.go, Stop; `none` where Run has not made the server and the backend yet.
  unfoldable pub stop : Option (Running L F R M C P I) → List (StopEvent R)
  stop none = []
  stop (some r) = server_stops ∷ map client_closes (closers_of r.backend)
