-- ===== src/Settings.antt =====
-- src/settings/settings.go: the settings and their defaults. The floating-point numbers `F` and
-- the interceptors `I` of gRPC are parameters. Durations are in nanoseconds.
pub mod Options
pub mod Clients
use api_ratelimit.Common.{GoString, text, Dict, ℕ, Bool, true, false, Option, none, List, []}
use api_ratelimit.Utils.Tls.{TlsConfig}

-- settings.go, Settings
pub record Settings (C P F I : Type 0) : Type 0 where
  pub grpc_unary_interceptor : Option I
  pub host : GoString
  pub port : ℕ
  pub debug_host : GoString
  pub debug_port : ℕ
  pub grpc_uds : GoString
  pub grpc_host : GoString
  pub grpc_port : ℕ
  pub grpc_server_tls_config : Option (TlsConfig C P)
  pub grpc_max_connection_age : ℕ
  pub grpc_max_connection_age_grace : ℕ
  pub grpc_server_use_tls : Bool
  pub grpc_server_tls_cert : GoString
  pub grpc_server_tls_key : GoString
  pub grpc_client_tls_ca_cert : GoString
  pub grpc_client_tls_san : GoString
  pub log_level : GoString
  pub log_format : GoString
  pub config_type : GoString
  pub force_start_without_initial_config : Bool
  pub config_grpc_xds_node_id : GoString
  pub config_grpc_xds_node_metadata : GoString
  pub config_grpc_xds_server_url : GoString
  pub config_grpc_xds_server_connect_retry_interval : ℕ
  pub config_grpc_xds_client_additional_headers : Dict GoString
  pub config_grpc_xds_tls_config : Option (TlsConfig C P)
  pub config_grpc_xds_server_use_tls : Bool
  pub config_grpc_xds_client_tls_cert : GoString
  pub config_grpc_xds_client_tls_key : GoString
  pub config_grpc_xds_server_tls_ca_cert : GoString
  pub config_grpc_xds_server_tls_san : GoString
  pub xds_client_backoff_initial_interval : ℕ
  pub xds_client_backoff_max_interval : ℕ
  pub xds_client_backoff_random_factor : F
  pub xds_client_backoff_jitter : Bool
  pub use_dog_statsd : Bool
  pub use_dog_statsd_mogrifiers : List GoString
  pub use_statsd : Bool
  pub statsd_host : GoString
  pub statsd_port : ℕ
  pub extra_tags : Dict GoString
  pub stats_flush_interval : ℕ
  pub disable_stats : Bool
  pub runtime_path : GoString
  pub runtime_subdirectory : GoString
  pub runtime_app_directory : GoString
  pub runtime_ignore_dot_files : Bool
  pub runtime_watch_root : Bool
  pub expiration_jitter_max_seconds : ℕ
  pub local_cache_size_in_bytes : ℕ
  pub near_limit_ratio : F
  pub cache_key_prefix : GoString
  pub backend_type : GoString
  pub stop_cache_key_increment_when_overlimit : Bool
  pub rate_limit_response_headers_enabled : Bool
  pub header_ratelimit_limit : GoString
  pub header_ratelimit_remaining : GoString
  pub header_ratelimit_reset : GoString
  pub healthy_with_at_least_one_config_loaded : Bool
  pub redis_socket_type : GoString
  pub redis_type : GoString
  pub redis_url : GoString
  pub redis_pool_size : ℕ
  pub redis_auth : GoString
  pub redis_tls : Bool
  pub redis_tls_config : Option (TlsConfig C P)
  pub redis_tls_client_cert : GoString
  pub redis_tls_client_key : GoString
  pub redis_tls_ca_cert : GoString
  pub redis_tls_skip_hostname_verification : Bool
  pub redis_pipeline_window : ℕ
  pub redis_pipeline_limit : ℕ
  pub redis_per_second : Bool
  pub redis_per_second_socket_type : GoString
  pub redis_per_second_type : GoString
  pub redis_per_second_url : GoString
  pub redis_per_second_pool_size : ℕ
  pub redis_per_second_auth : GoString
  pub redis_per_second_tls : Bool
  pub redis_per_second_pipeline_window : ℕ
  pub redis_per_second_pipeline_limit : ℕ
  pub redis_health_check_active_connection : Bool
  pub memcache_host_port : List GoString
  pub memcache_max_idle_conns : ℕ
  pub memcache_srv : GoString
  pub memcache_srv_refresh : ℕ
  pub memcache_tls : Bool
  pub memcache_tls_config : Option (TlsConfig C P)
  pub memcache_tls_client_cert : GoString
  pub memcache_tls_client_key : GoString
  pub memcache_tls_ca_cert : GoString
  pub memcache_tls_skip_hostname_verification : Bool
  pub global_shadow_mode : Bool
  pub merge_domain_configurations : Bool
  pub tracing_enabled : Bool
  pub tracing_service_name : GoString
  pub tracing_service_namespace : GoString
  pub tracing_service_instance_id : GoString
  pub tracing_exporter_protocol : GoString
  pub tracing_sampling_rate : F

module _ {C P F I : Type 0} where
  -- settings.go, Settings: what the tags give where the environment has no variable of the program
  abbrev pub default_settings : (GoString → F) → Settings C P F I
  default_settings float = record {
    grpc_unary_interceptor = none;
    host = text "0.0.0.0";
    port = 8080;
    debug_host = text "0.0.0.0";
    debug_port = 6070;
    grpc_uds = [];
    grpc_host = text "0.0.0.0";
    grpc_port = 8081;
    grpc_server_tls_config = none;
    grpc_max_connection_age = 86400000000000;
    grpc_max_connection_age_grace = 3600000000000;
    grpc_server_use_tls = false;
    grpc_server_tls_cert = [];
    grpc_server_tls_key = [];
    grpc_client_tls_ca_cert = [];
    grpc_client_tls_san = [];
    log_level = text "WARN";
    log_format = text "text";
    config_type = text "FILE";
    force_start_without_initial_config = false;
    config_grpc_xds_node_id = text "default";
    config_grpc_xds_node_metadata = [];
    config_grpc_xds_server_url = text "localhost:18000";
    config_grpc_xds_server_connect_retry_interval = 3000000000;
    config_grpc_xds_client_additional_headers = [];
    config_grpc_xds_tls_config = none;
    config_grpc_xds_server_use_tls = false;
    config_grpc_xds_client_tls_cert = [];
    config_grpc_xds_client_tls_key = [];
    config_grpc_xds_server_tls_ca_cert = [];
    config_grpc_xds_server_tls_san = [];
    xds_client_backoff_initial_interval = 10000000000;
    xds_client_backoff_max_interval = 60000000000;
    xds_client_backoff_random_factor = float (text "0.5");
    xds_client_backoff_jitter = true;
    use_dog_statsd = false;
    use_dog_statsd_mogrifiers = [];
    use_statsd = true;
    statsd_host = text "localhost";
    statsd_port = 8125;
    extra_tags = [];
    stats_flush_interval = 10000000000;
    disable_stats = false;
    runtime_path = text "/srv/runtime_data/current";
    runtime_subdirectory = [];
    runtime_app_directory = text "config";
    runtime_ignore_dot_files = false;
    runtime_watch_root = true;
    expiration_jitter_max_seconds = 300;
    local_cache_size_in_bytes = 0;
    near_limit_ratio = float (text "0.8");
    cache_key_prefix = [];
    backend_type = text "redis";
    stop_cache_key_increment_when_overlimit = false;
    rate_limit_response_headers_enabled = false;
    header_ratelimit_limit = text "RateLimit-Limit";
    header_ratelimit_remaining = text "RateLimit-Remaining";
    header_ratelimit_reset = text "RateLimit-Reset";
    healthy_with_at_least_one_config_loaded = false;
    redis_socket_type = text "unix";
    redis_type = text "SINGLE";
    redis_url = text "/var/run/nutcracker/ratelimit.sock";
    redis_pool_size = 10;
    redis_auth = [];
    redis_tls = false;
    redis_tls_config = none;
    redis_tls_client_cert = [];
    redis_tls_client_key = [];
    redis_tls_ca_cert = [];
    redis_tls_skip_hostname_verification = false;
    redis_pipeline_window = 0;
    redis_pipeline_limit = 0;
    redis_per_second = false;
    redis_per_second_socket_type = text "unix";
    redis_per_second_type = text "SINGLE";
    redis_per_second_url = text "/var/run/nutcracker/ratelimitpersecond.sock";
    redis_per_second_pool_size = 10;
    redis_per_second_auth = [];
    redis_per_second_tls = false;
    redis_per_second_pipeline_window = 0;
    redis_per_second_pipeline_limit = 0;
    redis_health_check_active_connection = false;
    memcache_host_port = [];
    memcache_max_idle_conns = 2;
    memcache_srv = [];
    memcache_srv_refresh = 0;
    memcache_tls = false;
    memcache_tls_config = none;
    memcache_tls_client_cert = [];
    memcache_tls_client_key = [];
    memcache_tls_ca_cert = [];
    memcache_tls_skip_hostname_verification = false;
    global_shadow_mode = false;
    merge_domain_configurations = false;
    tracing_enabled = false;
    tracing_service_name = text "RateLimit";
    tracing_service_namespace = [];
    tracing_service_instance_id = [];
    tracing_exporter_protocol = text "http";
    tracing_sampling_rate = float (text "1");
  }
