-- ===== src/Examples/Processes.antt =====
-- Tests of the start and the end of the process.
use api_ratelimit.Common.{
  GoString, text, ◌==◌, ℕ, ◌≡◌, refl, ◌≢◌, inl, true, none, some, List, [], ◌∷◌,
}
use api_ratelimit.Common.Process.{runs}
use api_ratelimit.Utils.Tls.{
  empty_config, set_pool, must_read_file, key_pairs, with_ca, tls_config_from_files,
  require_and_verify, TlsLibrary,
}
use api_ratelimit.Settings.Options.{
  redis_tls_config, memcache_tls_config, grpc_server_tls_config, config_grpc_xds_server_tls_config,
  new_settings,
}
use api_ratelimit.Settings.{default_settings, Settings}
use api_ratelimit.Settings.Clients.{Demands, new_settings-Demands}
use api_ratelimit.Provider.Cert.{
  KeyFiles, reload_cert, setup_runtime, new_cert_provider, watch_certs, get_certificate,
  last_loaded, serves_last, RuntimeLibrary, CertProvider,
}
use api_ratelimit.Server.Lifecycle.{
  new_threads, close_handle, stop_grpc, close_all, in_use, closed, serving, returned, serving_grpc,
  stopped, Threads, makes_http, calls_stop, grpc_stops, closes, ServerSteps, here, next,
}
use api_ratelimit.Server.Lifecycle.Stops.{stop_closes}

-- Files that hold their own names, and the environment of a server with TLS for its clients.
abbrev named_files : TlsLibrary GoString (List GoString)
named_files = record {
  load_key_pair = λ cert key. inl cert;
  system_pool = text "system" ∷ [];
  append_certs = λ pool pem. some (pem ∷ pool);
  read_file = λ name. inl name;
}

abbrev tls_settings : Settings GoString (List GoString) ℕ (Unit {0})
tls_settings = record (default_settings (λ s. 80)) {
  grpc_server_use_tls = true;
  grpc_server_tls_cert = text "certs/cert";
  grpc_server_tls_key = text "certs/key";
  grpc_client_tls_ca_cert = text "ca";
}

abbrev tls_read : Settings GoString (List GoString) ℕ (Unit {0})
tls_read = record tls_settings {
  redis_tls_config = some empty_config;
  memcache_tls_config = some empty_config;
  grpc_server_tls_config = some (record empty_config {
    certificates = text "certs/cert" ∷ [];
    client_cas = some (text "ca" ∷ text "system" ∷ []);
    client_auth = require_and_verify;
  });
}

new_settings-Demands_example : Demands named_files tls_read
unfolding new_settings redis_tls_config memcache_tls_config grpc_server_tls_config
    config_grpc_xds_server_tls_config tls_config_from_files key_pairs with_ca must_read_file
    set_pool ◌==◌
new_settings-Demands_example =
    new_settings-Demands named_files (inl tls_settings) tls_read refl refl (λ e. cc)

-- Two files in one directory, which cannot be read at the first update.
abbrev one_directory : RuntimeLibrary
one_directory = record {
  dir = λ path. text "certs";
  base = λ path. path;
  new_loader = λ path sub. true;
}

abbrev cert_files : KeyFiles GoString
cert_files cert key = some cert

abbrev no_files : KeyFiles GoString
no_files cert key = none

abbrev started : CertProvider GoString
started = record {
  cert = some (text "certs/cert");
  cert_directory = text "certs";
  cert_file = text "certs/cert";
  key_file = text "certs/key";
}

serves_last_example :
    (text "certs" ≡ text "certs")
    × ((c : GoString) × (q : CertProvider GoString) × (cert_files
            (text "certs/cert")
            (text "certs/key")
          ≡ some c)
        × (watch_certs (no_files ∷ cert_files ∷ []) started ≡ runs q)
        × (get_certificate q
            ≡ some (
                last_loaded (text "certs/cert") (text "certs/key") c (no_files ∷ cert_files ∷ []))))
unfolding new_cert_provider setup_runtime reload_cert ◌==◌
serves_last_example =
    serves_last one_directory cert_files (text "certs/cert") (text "certs/key") started
      (no_files ∷ cert_files ∷ []) refl

-- The HTTP server is made, and Stop is called.
abbrev made : Threads
made = record new_threads { http = in_use; start = serving }

abbrev after_stop : Threads
after_stop = record made { stop = stopped; http = closed; provider_stops = 1 }

to_made : ServerSteps new_threads made
to_made = next here (makes_http refl)

stop_closes_example :
    (after_stop.http ≡ closed)
    × (after_stop.grpc ≢ serving_grpc)
    × (after_stop.provider_stops ≡ 1)
    × ((u : Threads) × ServerSteps after_stop u × (u.start ≡ returned))
unfolding close_all close_handle stop_grpc
stop_closes_example =
    stop_closes to_made (λ e. cc) (λ e. cc)
      (next (next (next here (calls_stop refl)) (grpc_stops refl)) (closes refl)) refl

abbrev stopped_first : Threads
stopped_first = record new_threads { stop = stopped; provider_stops = 1 }

stopped_early : ServerSteps new_threads stopped_first
unfolding close_all close_handle stop_grpc
stopped_early = next (next (next here (calls_stop refl)) (grpc_stops refl)) (closes refl)

abbrev made_late : Threads
made_late = record stopped_first { http = in_use; start = serving }
