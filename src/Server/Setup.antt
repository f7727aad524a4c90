-- ===== src/Server/Setup.antt =====
-- src/server/server_impl.go, newServer and what it calls, and the providers as they are made
-- (src/provider). The libraries of gRPC, HTTP, statistics and of the watched directories are parameters.
use api_ratelimit.Common.Strings.{format_uint}
use api_ratelimit.Common.{
  if◌then◌else◌, GoString, text, ◌==◌, and_then, other_error, Outcome, returns, panics, Dict,
  insert, lookup, Bool, true, false, not, Option, none, some, List, [], ◌∷◌, ◌++◌, map,
}
use api_ratelimit.Common.Process.{and_run, call_in_process, Process, runs, fatal, crashes}
use api_ratelimit.Utils.Tls.{TlsConfig}
use api_ratelimit.Settings.{Settings}
use api_ratelimit.Srv.{sort_strings}
use api_ratelimit.Limiter.{nil_dereference}
use api_ratelimit.Provider.Cert.{KeyFiles, new_cert_provider, RuntimeLibrary, CertProvider}
use api_ratelimit.Server.Health.{new_health_checker, HealthChecker}

-- server_impl.go, grpcListenType
pub data GrpcListenType : Type 0 where
  tcp unix_domain_socket : GrpcListenType

pub data ProviderKind : Type 0 where
  file_provider xds_provider : ProviderKind

-- The functions that newServer and the runner register on the debug listener.
pub data DebugHandler : Type 0 where
  pprof_index pprof_profile print_stats pprof_trace debug_root dump_config : DebugHandler

-- The options that newServer gives gRPC for TLS: the configuration, the provider behind
-- GetCertificate, and the SAN that verifyClient is made for.
pub record ServerTls (C P : Type 0) : Type 0 where
  pub config : TlsConfig C P
  pub cert_provider : CertProvider C
  pub client_san : Option GoString

-- server_impl.go, server, as newServer fills it. `handlers` are the patterns of the debug listener and
-- `routes` those of the HTTP router.
pub record Server (C P I : Type 0) : Type 0 where
  pub http_address : GoString
  pub grpc_address : GoString
  pub grpc_listen_type : GrpcListenType
  pub debug_address : GoString
  pub provider : ProviderKind
  pub interceptor : Option I
  pub tls : Option (ServerTls C P)
  pub health : HealthChecker
  pub local_cache_stats : Bool
  pub routes : List GoString
  pub handlers : Dict DebugHandler
  pub endpoints : Dict GoString

-- The directory that a file provider watches.
pub record RuntimeDirectory : Type 0 where
  pub path : GoString
  pub subdirectory : GoString
  pub through_symlink : Bool
  pub ignore_dot_files : Bool

-- loader.New2 for a file provider, which gives the text of an error or none; net.JoinHostPort;
-- filepath.Join; and what a certificate provider needs.
pub record SetupLibrary (C : Type 0) : Type 0 where
  pub watch_directory : RuntimeDirectory → Option GoString
  pub join_host_port : GoString → GoString → GoString
  pub join_path : GoString → GoString → GoString
  pub cert_runtime : RuntimeLibrary
  pub key_files : KeyFiles C

-- http.ServeMux.HandleFunc, which panics at a pattern that is registered already
abbrev pub handle_func : GoString → DebugHandler → Dict DebugHandler → Outcome (Dict DebugHandler)
handle_func path handler handlers = elim (lookup path handlers) [
  | none ↦ returns (insert path handler handlers)
  | some h ↦ panics (other_error (text "http: multiple registrations for " ++ path))
]

abbrev pub help_of : Option GoString → GoString
help_of none = []
help_of (some help) = help

abbrev pub endpoint_lines : Dict GoString → List GoString → GoString
endpoint_lines endpoints [] = []
endpoint_lines endpoints (key ∷ keys) =
    key
    ++ (text ": "
        ++ (help_of (lookup key endpoints) ++ (text "\n" ++ endpoint_lines endpoints keys)))

abbrev pub or_runtime_error : {A : Type 0} → Option GoString → A → Process A
or_runtime_error none a = runs a
or_runtime_error (some e) a = crashes (other_error e)

abbrev pub named_san : GoString → Option GoString
named_san [] = none
named_san (c ∷ san) = some (c ∷ san)

module _ {C P I : Type 0} where
  -- server_impl.go, AddDebugHttpEndpoint
  unfoldable pub add_debug_http_endpoint :
      GoString → GoString → DebugHandler → Server C P I → Outcome (Server C P I)
  add_debug_http_endpoint path help handler server =
      and_then (handle_func path handler server.handlers) λ handlers.
        returns
          (record server { handlers = handlers; endpoints = insert path help server.endpoints })

  -- newServer: the endpoints of the debug listener
  unfoldable pub add_debug_endpoints : Server C P I → Outcome (Server C P I)
  unfolding add_debug_http_endpoint
  add_debug_endpoints server =
      and_then
        (add_debug_http_endpoint (text "/debug/pprof/")
          (text "root of various pprof endpoints. hit for help.") pprof_index server)
        λ server.
          and_then
            (add_debug_http_endpoint (text "/debug/pprof/profile") (text "CPU profiling endpoint")
              pprof_profile server)
            λ server.
              and_then
                (add_debug_http_endpoint (text "/stats") (text "print out stats") print_stats
                  server)
                λ server.
                  and_then
                    (add_debug_http_endpoint (text "/debug/pprof/trace") (text "trace endpoint")
                      pprof_trace server)
                    λ server.
                      and_then (handle_func (text "/") debug_root server.handlers)
                        λ handlers. returns (record server { handlers = handlers })

  -- newServer: the handler of the debug root
  unfoldable pub write_debug_root : Server C P I → GoString
  unfolding sort_strings
  write_debug_root server =
      endpoint_lines server.endpoints (sort_strings (map (λ e. e.0) server.endpoints))

  -- server_impl.go, AddJsonHandler
  unfoldable pub add_json_handler : Server C P I → Server C P I
  add_json_handler server = record server { routes = server.routes ++ text "/json" ∷ [] }

module _ {C P F I : Type 0} (library : SetupLibrary C) where
  -- file_provider.go, setupRuntime
  unfoldable pub runtime_directory : Settings C P F I → RuntimeDirectory
  runtime_directory s =
      if s.runtime_watch_root
      then record {
        path = s.runtime_path;
        subdirectory = s.runtime_subdirectory;
        through_symlink = true;
        ignore_dot_files = s.runtime_ignore_dot_files;
      }
      else record {
        path = library.join_path s.runtime_path s.runtime_subdirectory;
        subdirectory = s.runtime_app_directory;
        through_symlink = false;
        ignore_dot_files = s.runtime_ignore_dot_files;
      }

  -- server_impl.go, getProviderImpl, with NewFileProvider
  unfoldable pub get_provider_impl : Settings C P F I → Process ProviderKind
  unfolding runtime_directory
  get_provider_impl s =
      if s.config_type == text "FILE"
      then or_runtime_error (library.watch_directory (runtime_directory s)) file_provider
      else if s.config_type == text "GRPC_XDS_SOTW"
      then runs xds_provider
      else fatal

  abbrev pub with_certs :
      Settings C P F I → Option (TlsConfig C P) → CertProvider C → Process (Option (ServerTls C P))
  with_certs s none provider = crashes nil_dereference
  with_certs s (some config) provider = runs (
      some (record {
        config = record config { certificates = [] };
        cert_provider = provider;
        client_san = named_san s.grpc_client_tls_san;
      }))

  -- newServer: TLS
  unfoldable pub server_tls : Settings C P F I → Process (Option (ServerTls C P))
  unfolding new_cert_provider
  server_tls s =
      if s.grpc_server_use_tls
      then (and_run
          (new_cert_provider library.cert_runtime library.key_files s.grpc_server_tls_cert
            s.grpc_server_tls_key)
          λ provider. with_certs s s.grpc_server_tls_config provider)
      else runs none

  -- newServer: the address for gRPC
  unfoldable pub grpc_listen : Settings C P F I → GoString × GrpcListenType
  grpc_listen s =
      if not (s.grpc_uds == [])
      then (s.grpc_uds, unix_domain_socket)
      else (library.join_host_port s.grpc_host (format_uint s.grpc_port), tcp)

  abbrev pub apply_options :
      List (Settings C P F I → Settings C P F I) → Settings C P F I → Settings C P F I
  apply_options [] s = s
  apply_options (opt ∷ opts) s = apply_options opts (opt s)

  -- server_impl.go, newServer, with whether there is a local cache
  unfoldable pub new_server :
      Settings C P F I → Bool → List (Settings C P F I → Settings C P F I) → Process (Server C P I)
  unfolding server_tls grpc_listen get_provider_impl add_debug_endpoints new_health_checker
  new_server settings local_cache opts =
      let s = apply_options opts settings in
      and_run (server_tls s) λ tls. and_run (get_provider_impl s) λ provider. call_in_process (
        add_debug_endpoints (record {
          http_address = library.join_host_port s.host (format_uint s.port);
          grpc_address = (grpc_listen s).0;
          grpc_listen_type = (grpc_listen s).1;
          debug_address = library.join_host_port s.debug_host (format_uint s.debug_port);
          provider = provider;
          interceptor = s.grpc_unary_interceptor;
          tls = tls;
          health = new_health_checker s.healthy_with_at_least_one_config_loaded;
          local_cache_stats = local_cache;
          routes = text "/healthcheck" ∷ [];
          handlers = [];
          endpoints = [];
        }))
