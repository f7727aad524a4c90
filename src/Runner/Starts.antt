-- ===== src/Runner/Starts.antt =====
-- What a process has checked when it starts to serve (src/service_cmd/runner/runner.go).
use api_ratelimit.Trace.{TraceProvider}
use api_ratelimit.Common.Process.{
  call_in_process, or_fatal, and_run-runs, call-runs, or_fatal-runs, runs-eq, if-runs, runs,
}
use api_ratelimit.Common.{
  All, text, ◌==◌, eq_sound, returns-eq, redis_error, service_error, config_error, memcache_error,
  other_error, Outcome, returns, panics, Dict, ℕ, ◌≡◌, refl, ◌⊎◌, inl, inr, Bool, true, false, ◌||◌,
  Option, none, some, [], ◌∷◌,
}
use api_ratelimit.Config.Tree.{Node}
use api_ratelimit.Service.Update.{
  install, set_config, ConfigUpdateEvent, new_config, load_error, Server as ServiceServer,
  Settings as EnvSettings,
}
use api_ratelimit.Settings.Options.{grpc_unary_interceptor}
use api_ratelimit.Settings.{Settings}
use api_ratelimit.Redis.FixedCache.{has_client}
use api_ratelimit.Redis.Setup.{new_cache_from_settings, Answers}
use api_ratelimit.Redis.Setup.Connected.{new_cache_from_settings-Answers}
use api_ratelimit.Memcached.Servers.{new_memcache_from_settings}
use api_ratelimit.Runner.{
  as_redis, redis_pool, redis_per_second_pool, env_settings, base_limiter, new_memcache_from_client,
  create_limiter, start_tracing, start_server, start_service, finish_server, with_service,
  with_server, with_trace, run, RunnerLibrary, Backend, redis_backend, memcache_backend, Running,
}
use api_ratelimit.Server.Setup.{
  get_provider_impl, server_tls, new_server, ProviderKind, Server as HttpServer,
}
use api_ratelimit.Service.Start.{without_config, state_of, new_service, install-config}
use mathlib.Core.Path.{subst}

-- The configuration of a service after the first event: the one that was sent, or none after an error
-- of the load.
abbrev pub HasEvent : ConfigUpdateEvent → Option (Dict Node) → Type 0
HasEvent (new_config domains) config = config ≡ some domains
HasEvent (load_error (config_error e)) config = config ≡ none
HasEvent (load_error p) config = ⊥

module _ {B : Type 0} where
  HasEvent-set_config :
      (settings : Outcome EnvSettings) (healthy : Bool) (event : ConfigUpdateEvent)
      (s t : ServiceServer B)
      → s.service.config ≡ none
      → state_of (set_config settings healthy event s) ≡ returns t
      → HasEvent event t.service.config
  unfolding set_config install
  HasEvent-set_config (panics p) healthy (new_config domains) s t h e = absurd (cc)
  HasEvent-set_config (returns settings) healthy (new_config domains) s t h e =
      subst (λ (x : ServiceServer B). x.service.config ≡ some domains) (returns-eq e)
        (install-config (returns settings) domains
          (record s.service { calls = (s.service.stats.config_load_success, 1) ∷ s.service.calls }))
  HasEvent-set_config settings healthy (load_error (config_error m)) s t h e =
      subst (λ (x : ServiceServer B). x.service.config ≡ none) (returns-eq e) h
  HasEvent-set_config settings healthy (load_error (redis_error m)) s t h e = absurd (cc)
  HasEvent-set_config settings healthy (load_error (service_error m)) s t h e = absurd (cc)
  HasEvent-set_config settings healthy (load_error (memcache_error m)) s t h e = absurd (cc)
  HasEvent-set_config settings healthy (load_error (other_error m)) s t h e = absurd (cc)

  HasEvent-new_service :
      (server t : ServiceServer B) (healthy : Bool) (settings : Outcome EnvSettings)
      (event : ConfigUpdateEvent)
      → server.service.config ≡ none
      → new_service server false healthy settings event ≡ returns t
      → HasEvent event t.service.config
  unfolding new_service
  HasEvent-new_service server t healthy settings event h e =
      HasEvent-set_config settings healthy event server t h e

module _ {L F R M N K C P I : Type 0} (library : RunnerLibrary L F R M N K C I) where
  -- Every client of Redis answered a PING, and there is one for limits per second exactly when the
  -- settings ask for it; or the settings name Memcached.
  abbrev pub HasBackend : Settings C P F I → Backend L F R M → Type 0
  HasBackend s (redis_backend cache closers) =
      All (Answers library.radix) closers
      × (has_client cache.per_second_client ≡ s.redis_per_second)
  HasBackend s (memcache_backend cache) = s.backend_type ≡ text "memcache"

  create_limiter-HasBackend :
      (s : Settings C P F I) (b : Backend L F R M)
      → create_limiter library s ≡ runs b
      → HasBackend s b
  unfolding create_limiter
  create_limiter-HasBackend s b h =
      let made =
        new_cache_from_settings library.radix s.redis_per_second (redis_per_second_pool s)
          (redis_pool s) s.stop_cache_key_increment_when_overlimit (base_limiter library s) in
      let client =
        new_memcache_from_settings library.memcache s.memcache_srv s.memcache_host_port
          library.dns in
      elim (if-runs (s.backend_type == text "redis" || s.backend_type == []) _ _ h) [
        | inl (named, redis) ↦
            let ((cache, closers), h₁, g₁) =
              and_run-runs (call_in_process made) (λ m. runs (as_redis m)) redis in
            subst (HasBackend s) (runs-eq g₁) (
              new_cache_from_settings-Answers library.radix s.redis_per_second
                s.stop_cache_key_increment_when_overlimit (redis_per_second_pool s) (redis_pool s)
                (base_limiter library s) cache closers (call-runs made h₁))
        | inr (named, other) ↦ elim (if-runs (s.backend_type == text "memcache") _ _ other) [
          | inl (memcache, g) ↦
              let (c, h₁, g₁) =
                and_run-runs (call_in_process client)
                  (λ c. runs (memcache_backend (new_memcache_from_client library s c))) g in
              subst (HasBackend s) (runs-eq g₁) (eq_sound s.backend_type (text "memcache") memcache)
          | inr (unnamed, g) ↦ absurd (cc)
        ]
      ]

  abbrev pub HasConfigType : Settings C P F I → Type 0
  HasConfigType s = (s.config_type ≡ text "FILE") ⊎ (s.config_type ≡ text "GRPC_XDS_SOTW")

  provider-HasConfigType :
      (s : Settings C P F I) (k : ProviderKind)
      → get_provider_impl library.server s ≡ runs k
      → HasConfigType s
  unfolding get_provider_impl
  provider-HasConfigType s k h = elim (if-runs (s.config_type == text "FILE") _ _ h) [
    | inl (e, g) ↦ inl (eq_sound s.config_type (text "FILE") e)
    | inr (e, g) ↦ elim (if-runs (s.config_type == text "GRPC_XDS_SOTW") _ _ g) [
      | inl (f, k) ↦ inr (eq_sound s.config_type (text "GRPC_XDS_SOTW") f)
      | inr (f, k) ↦ absurd (cc)
    ]
  ]

  server-HasConfigType :
      (s : Settings C P F I) (server : HttpServer C P I)
      → start_server library s ≡ runs server
      → HasConfigType s
  unfolding start_server new_server grpc_unary_interceptor
  server-HasConfigType s server h =
      let t = grpc_unary_interceptor library.reporter s in
      let (tls, h₁, g₁) = and_run-runs (server_tls library.server t) _ h in
      let (kind, h₂, g₂) = and_run-runs (get_provider_impl library.server t) _ g₁ in
      provider-HasConfigType t kind h₂

  -- What is left to show once the server is made.
  abbrev IsServed : Settings C P F I → ConfigUpdateEvent → Running L F R M C P I → Type 0
  IsServed s event r = HasBackend s r.backend × HasEvent event r.service.service.config

  service-HasEvent :
      (s : Settings C P F I) (server : HttpServer C P I) (clock : ℕ → ℕ) (event : ConfigUpdateEvent)
      (service : ServiceServer (Unit {0}))
      → s.force_start_without_initial_config ≡ false
      → start_service library s server clock event ≡ runs service
      → HasEvent event service.service.config
  unfolding start_service
  service-HasEvent s server clock event service waits h =
      HasEvent-new_service _ service s.healthy_with_at_least_one_config_loaded
        (returns (env_settings s)) event refl
        (subst
          (λ b.
            new_service (without_config tt clock s.global_shadow_mode server.health) b
              s.healthy_with_at_least_one_config_loaded (returns (env_settings s)) event
            ≡ returns service)
          waits (call-runs _ h))

  service-IsServed :
      (s : Settings C P F I) (event : ConfigUpdateEvent) (trace : Option (TraceProvider F))
      (server : HttpServer C P I) (backend : Backend L F R M) (service : ServiceServer (Unit {0}))
      (r : Running L F R M C P I)
      → HasBackend s backend
      → HasEvent event service.service.config
      → with_service library trace server backend service ≡ runs r
      → IsServed s event r
  service-IsServed s event trace server backend service r hb he h =
      let (server', h₁, g₁) = and_run-runs (finish_server library server) _ h in
      subst (IsServed s event) (runs-eq g₁) (hb, he)

  server-IsServed :
      (s : Settings C P F I) (clock : ℕ → ℕ) (event : ConfigUpdateEvent)
      (trace : Option (TraceProvider F)) (server : HttpServer C P I) (r : Running L F R M C P I)
      → s.force_start_without_initial_config ≡ false
      → with_server library s clock event trace server ≡ runs r
      → IsServed s event r
  server-IsServed s clock event trace server r waits h =
      let (backend, h₁, g₁) = and_run-runs (create_limiter library s) _ h in
      let (service, h₂, g₂) = and_run-runs (start_service library s server clock event) _ g₁ in
      service-IsServed s event trace server backend service r
        (create_limiter-HasBackend s backend h₁)
        (service-HasEvent s server clock event service waits h₂) g₂

  trace-IsServed :
      (s : Settings C P F I) (clock : ℕ → ℕ) (event : ConfigUpdateEvent)
      (trace : Option (TraceProvider F)) (r : Running L F R M C P I)
      → s.force_start_without_initial_config ≡ false
      → with_trace library s clock event trace ≡ runs r
      → (library.is_log_level s.log_level ≡ true) × HasConfigType s × IsServed s event r
  trace-IsServed s clock event trace r waits h =
      let (u, h₁, g₁) = and_run-runs (or_fatal (library.is_log_level s.log_level)) _ h in
      let (server, h₂, g₂) = and_run-runs (start_server library s) _ g₁ in
      (
        or_fatal-runs (library.is_log_level s.log_level) h₁,
        server-HasConfigType s server h₂,
        server-IsServed s clock event trace server r waits g₂,
      )

  -- A process that Run has made ready to start, without FORCE_START_WITHOUT_INITIAL_CONFIG: the level of the
  -- log is one, the type of the configuration is FILE or GRPC_XDS_SOTW, the backend is Memcached or each
  -- of its clients of Redis has answered a PING, and the service has the configuration of the first
  -- event, or none where the event is a RateLimitConfigError.
  pub run-IsReady :
      (s : Settings C P F I) (clock : ℕ → ℕ) (event : ConfigUpdateEvent) (r : Running L F R M C P I)
      → run library s clock event ≡ runs r
      → s.force_start_without_initial_config ≡ false
      → (library.is_log_level s.log_level ≡ true)
        × HasConfigType s
        × HasBackend s r.backend
        × HasEvent event r.service.service.config
  unfolding run
  run-IsReady s clock event r h waits =
      let (trace, h₁, g₁) = and_run-runs (start_tracing library s) _ h in
      let (level, kind, (backend, loaded)) = trace-IsServed s clock event trace r waits g₁ in
      (level, kind, backend, loaded)
