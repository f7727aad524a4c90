-- ===== src/Settings/Options.antt =====
-- src/settings/settings.go: the options of NewSettings. What envconfig makes of the environment is a
-- parameter.
use api_ratelimit.Common.{
  GoString, and_then, other_error, Outcome, returns, panics, ◌⊎◌, inl, inr, Bool, true, false, ◌||◌,
  Option, some, [], ◌∷◌,
}
use api_ratelimit.Utils.Tls.{
  empty_config, tls_config_from_files, client_ca, server_ca, ClientAuth, no_client_cert,
  require_and_verify, TlsConfig, TlsLibrary,
}
use api_ratelimit.Settings.{Settings}

-- The ClientAuth of GrpcServerTlsConfig and ConfigGrpcXdsServerTlsConfig, by the name of the CA file
abbrev pub client_auth_for : GoString → ClientAuth
client_auth_for [] = no_client_cert
client_auth_for (c ∷ ca) = require_and_verify

module _ {C P : Type 0} where
  -- The reads of files by the options, by the flag that they depend on.
  abbrev pub config_if :
      Bool → Outcome (TlsConfig C P) → Option (TlsConfig C P) → Outcome (Option (TlsConfig C P))
  config_if false read old = returns old
  config_if true read old = and_then read λ config. returns (some config)

  -- The files of a server or client of gRPC, with the ClientAuth that the options set.
  abbrev pub with_client_auth : GoString → Outcome (TlsConfig C P) → Outcome (TlsConfig C P)
  with_client_auth ca read =
      and_then read λ config. returns (record config { client_auth = client_auth_for ca })

module _ {C P F I : Type 0} where
  module _ (library : TlsLibrary C P) where
    -- settings.go, RedisTlsConfig
    unfoldable pub redis_tls_config : Bool → Settings C P F I → Outcome (Settings C P F I)
    unfolding tls_config_from_files
    redis_tls_config redis_tls s =
        and_then
          (config_if redis_tls
            (tls_config_from_files library s.redis_tls_client_cert s.redis_tls_client_key
              s.redis_tls_ca_cert server_ca s.redis_tls_skip_hostname_verification)
            (some empty_config))
          λ config. returns (record s { redis_tls_config = config })

    -- settings.go, MemcacheTlsConfig
    unfoldable pub memcache_tls_config : Bool → Settings C P F I → Outcome (Settings C P F I)
    unfolding tls_config_from_files
    memcache_tls_config memcache_tls s =
        and_then
          (config_if memcache_tls
            (tls_config_from_files library s.memcache_tls_client_cert s.memcache_tls_client_key
              s.memcache_tls_ca_cert server_ca s.memcache_tls_skip_hostname_verification)
            (some empty_config))
          λ config. returns (record s { memcache_tls_config = config })

    -- settings.go, GrpcServerTlsConfig
    unfoldable pub grpc_server_tls_config : Settings C P F I → Outcome (Settings C P F I)
    unfolding tls_config_from_files
    grpc_server_tls_config s =
        and_then
          (config_if s.grpc_server_use_tls
            (with_client_auth s.grpc_client_tls_ca_cert (
              tls_config_from_files library s.grpc_server_tls_cert s.grpc_server_tls_key
                s.grpc_client_tls_ca_cert client_ca false))
            s.grpc_server_tls_config)
          λ config. returns (record s { grpc_server_tls_config = config })

    -- settings.go, ConfigGrpcXdsServerTlsConfig
    unfoldable pub config_grpc_xds_server_tls_config : Settings C P F I → Outcome (Settings C P F I)
    unfolding tls_config_from_files
    config_grpc_xds_server_tls_config s =
        and_then
          (config_if s.config_grpc_xds_server_use_tls
            (with_client_auth s.config_grpc_xds_server_tls_ca_cert (
              tls_config_from_files library s.config_grpc_xds_client_tls_cert
                s.config_grpc_xds_client_tls_key s.config_grpc_xds_server_tls_ca_cert server_ca
                false))
            s.config_grpc_xds_tls_config)
          λ config. returns (record s { config_grpc_xds_tls_config = config })

    abbrev pub or_env_error : Settings C P F I ⊎ GoString → Outcome (Settings C P F I)
    or_env_error (inl s) = returns s
    or_env_error (inr e) = panics (other_error e)

    -- settings.go, NewSettings, given what envconfig.Process makes of the environment
    unfoldable pub new_settings : Settings C P F I ⊎ GoString → Outcome (Settings C P F I)
    unfolding redis_tls_config memcache_tls_config grpc_server_tls_config
        config_grpc_xds_server_tls_config
    new_settings env = and_then (or_env_error env) λ s.
        and_then (redis_tls_config (s.redis_tls || s.redis_per_second_tls) s) λ s.
          and_then (memcache_tls_config s.memcache_tls s)
            λ s. and_then (grpc_server_tls_config s) λ s. config_grpc_xds_server_tls_config s

  -- settings.go, GrpcUnaryInterceptor
  unfoldable pub grpc_unary_interceptor : I → Settings C P F I → Settings C P F I
  grpc_unary_interceptor i s = record s { grpc_unary_interceptor = some i }
