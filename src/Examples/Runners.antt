-- ===== src/Examples/Runners.antt =====
-- Tests of the start of the process with Redis and of the node of the xDS provider.
use api_ratelimit.Common.Strings.{cut, join, to_lower, format_uint}
use api_ratelimit.Common.{
  GoString, text, ◌==◌, Dict, insert, lookup, ℕ, ◌≡◌, refl, true, false, none, some, List, [], ◌∷◌,
  ◌++◌,
}
use api_ratelimit.Request.{Entry}
use api_ratelimit.Provider.ClientNode.{get_client_node, lookup-get_client_node}
use api_ratelimit.Provider.Updates.{last_some}
use api_ratelimit.Settings.{default_settings, Settings}
use api_ratelimit.Srv.{found}
use api_ratelimit.Stats.{new_service_stats}
use api_ratelimit.Config.Tree.{empty_node}
use api_ratelimit.Redis.Driver.{client_of, ClientImpl}
use api_ratelimit.Server.Health.{new_health_checker}
use api_ratelimit.Server.Setup.{
  tcp, file_provider, pprof_index, pprof_profile, print_stats, pprof_trace, debug_root, dump_config,
  SetupLibrary,
}
use api_ratelimit.Service.Update.{ConfigUpdateEvent, new_config}
use api_ratelimit.Runner.{run, RunnerLibrary, redis_backend, Running}
use api_ratelimit.Runner.Starts.{HasEvent, HasBackend, HasConfigType, run-IsReady}
use api_ratelimit.Examples.{list_cache, hundredths, counting}
use api_ratelimit.Examples.Memcache.{count_client}

abbrev setup : SetupLibrary GoString
setup = record {
  watch_directory = λ d. none;
  join_host_port = λ h p. h ++ b':' ∷ p;
  join_path = λ d f. d ++ f;
  cert_runtime = record { dir = λ p. p; base = λ p. p; new_loader = λ p q. true };
  key_files = λ cert key. none;
}

abbrev libraries :
    RunnerLibrary
      (List GoString)
      ℕ
      (Dict ℕ)
      (Dict ℕ)
      (List GoString)
      (List GoString)
      GoString
      (Unit {0})
libraries = record {
  radix = record {
    connect = λ kind socket_type url options. found counting;
    ping = λ radix. found (text "PONG");
  };
  memcache = record {
    no_servers = [];
    set_servers = λ l m. found l;
    new_from_selector = λ m. m;
    new_client = λ l. l;
  };
  memcache_client = λ servers. count_client;
  parse_value = λ raw. none;
  dns = λ parts. found [];
  local_cache = list_cache;
  floats = hundredths;
  server = setup;
  tracing = record { has_exporter = λ c. true; random_uuid = none };
  is_log_level = λ level. true;
  reporter = tt;
}

abbrev from_environment : Settings GoString GoString ℕ (Unit {0})
from_environment = default_settings (λ s. 80)

abbrev first_event : ConfigUpdateEvent
first_event = new_config ((text "web", empty_node) ∷ [])

abbrev client : ClientImpl (Dict ℕ)
client = record { radix = counting; implicit_pipelining = false }

abbrev ready : Running (List GoString) ℕ (Dict ℕ) (Dict ℕ) GoString GoString (Unit {0})
ready = record {
  trace = none;
  server = record {
    http_address = text "0.0.0.0:8080";
    grpc_address = text "0.0.0.0:8081";
    grpc_listen_type = tcp;
    debug_address = text "0.0.0.0:6070";
    provider = file_provider;
    interceptor = some tt;
    tls = none;
    health = new_health_checker false;
    local_cache_stats = false;
    routes = text "/healthcheck" ∷ text "/json" ∷ [];
    handlers =
        (text "/debug/pprof/", pprof_index)
        ∷ (text "/debug/pprof/profile", pprof_profile)
        ∷ (text "/stats", print_stats)
        ∷ (text "/debug/pprof/trace", pprof_trace)
        ∷ (text "/", debug_root)
        ∷ (text "/rlconfig", dump_config)
        ∷ [];
    endpoints =
        (text "/debug/pprof/", text "root of various pprof endpoints. hit for help.")
        ∷ (text "/debug/pprof/profile", text "CPU profiling endpoint")
        ∷ (text "/stats", text "print out stats")
        ∷ (text "/debug/pprof/trace", text "trace endpoint")
        ∷ (text "/rlconfig", text "print out the currently loaded configuration for debugging")
        ∷ [];
  };
  backend =
      redis_backend
        (record {
          client = client_of client;
          per_second_client = none;
          stop_cache_key_increment_when_overlimit = false;
          base = record {
            cache = list_cache;
            floats = hundredths;
            near_limit_ratio = 80;
            expiration_jitter_max_seconds = 300;
            prefix = [];
          };
        })
        (client ∷ []);
  service = record {
    service = record {
      config = some ((text "web", empty_node) ∷ []);
      headers = record {
        enabled = false;
        limit_header = [];
        remaining_header = [];
        reset_header = [];
      };
      global_shadow_mode = false;
      stats = new_service_stats;
      calls = (new_service_stats.config_load_success, 1) ∷ [];
      backend = tt;
      clock = λ i. 1000;
    };
    health = new_health_checker false;
  };
}

run-IsReady_example :
    (libraries.is_log_level from_environment.log_level ≡ true)
    × HasConfigType libraries from_environment
    × HasBackend libraries from_environment ready.backend
    × HasEvent first_event ready.service.service.config
unfolding run ◌==◌ lookup insert to_lower format_uint
run-IsReady_example = run-IsReady libraries from_environment (λ i. 1000) first_event ready refl refl

abbrev named : Settings GoString GoString ℕ (Unit {0})
named = record from_environment { config_grpc_xds_node_metadata = text "zone=a,rack=1,zone=b=c" }

abbrev entry : GoString → GoString → Entry
entry k v = record { key = k; value = v }

lookup-get_client_node_example :
    lookup (text "zone") (get_client_node named).metadata ≡ some (text "b=c")
unfolding last_some ◌==◌ join cut
lookup-get_client_node_example =
    lookup-get_client_node named (entry (text "zone") (text "a"))
      (entry (text "rack") (text "1") ∷ entry (text "zone") (text "b=c") ∷ []) (text "zone")
      ((refl, refl), ((refl, refl), ((refl, refl), tt))) refl
