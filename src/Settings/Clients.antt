-- ===== src/Settings/Clients.antt =====
-- What NewSettings demands of the clients of the gRPC server (src/settings/settings.go, src/utils/tls.go).
use mathlib.Core.Path.{subst}
use api_ratelimit.Common.{
  GoString, ◌==◌, and_then, and_then-returns, returns-eq, returns, ℕ, ◌≡◌, refl, sym, ap, ◌≢◌, ◌⊎◌,
  inl, inr, Bool, true, false, ◌||◌, Option, none, some, [], ◌∷◌,
}
use api_ratelimit.Utils.Tls.{
  empty_config, set_pool, or_read_error, must_read_file, key_pairs, or_pool_error, with_ca,
  tls_config_from_files, client_ca, server_ca, require_and_verify, TlsConfig, TlsLibrary,
}
use api_ratelimit.Settings.Options.{
  config_if, with_client_auth, redis_tls_config, memcache_tls_config, grpc_server_tls_config,
  config_grpc_xds_server_tls_config, or_env_error, new_settings,
}
use api_ratelimit.Settings.{Settings}

-- The pool of a configuration is the system's with the certificates of the file.
pub record HasClientPool {C P : Type 0} (library : TlsLibrary C P) (ca : GoString)
    (config : TlsConfig C P) : Type 0 where
  pub pem : GoString
  pub pool : P
  pub is_read : library.read_file ca ≡ inl pem
  pub is_added : library.append_certs library.system_pool pem ≡ some pool
  pub is_set : config.client_cas ≡ some pool

module _ {C P : Type 0} (library : TlsLibrary C P) where
  file_read :
      (ca : GoString) (r : GoString ⊎ GoString) {pem : GoString}
      → or_read_error library ca r ≡ returns pem
      → r ≡ inl pem
  file_read ca (inl b) h = ap inl (returns-eq h)
  file_read ca (inr e) h = cc

  pool_added :
      (ca : GoString) (o : Option P) {pool : P}
      → or_pool_error library ca o ≡ returns pool
      → o ≡ some pool
  pool_added ca (some p) h = ap some (returns-eq h)
  pool_added ca none h = cc

  with_ca-pool :
      (c : ℕ) (ca : GoString) (config config' : TlsConfig C P)
      → with_ca library (c ∷ ca) client_ca config ≡ returns config'
      → HasClientPool library (c ∷ ca) config'
  unfolding with_ca must_read_file set_pool ◌==◌
  with_ca-pool c ca config config' h =
      let (pem, h₁, g₁) =
        and_then-returns (or_read_error library (c ∷ ca) (library.read_file (c ∷ ca)))
          (λ pem.
            and_then (or_pool_error library (c ∷ ca) (library.append_certs library.system_pool pem))
              λ pool. returns (set_pool client_ca pool config))
          h in
      let (pool, h₂, g₂) =
        and_then-returns
          (or_pool_error library (c ∷ ca) (library.append_certs library.system_pool pem))
          (λ pool. returns (set_pool client_ca pool config)) g₁ in
      record {
        pem = pem;
        pool = pool;
        is_read = file_read (c ∷ ca) (library.read_file (c ∷ ca)) h₁;
        is_added = pool_added (c ∷ ca) (library.append_certs library.system_pool pem) h₂;
        is_set = sym (ap (λ (x : TlsConfig C P). x.client_cas) (returns-eq g₂));
      }

  files-pool :
      (cert key : GoString) (c : ℕ) (ca : GoString) (skip : Bool) (config : TlsConfig C P)
      → tls_config_from_files library cert key (c ∷ ca) client_ca skip ≡ returns config
      → HasClientPool library (c ∷ ca) config
  unfolding tls_config_from_files
  files-pool cert key c ca skip config h =
      let (pairs, h₁, g₁) =
        and_then-returns (key_pairs library cert key)
          (λ pairs. with_ca library (c ∷ ca) client_ca (record empty_config {
            insecure_skip_verify = skip;
            verify_chain = skip;
            certificates = pairs;
          }))
          h in
      with_ca-pool c ca _ config g₁

  asks : TlsConfig C P → TlsConfig C P
  asks config = record config { client_auth = require_and_verify }

  asks-pool :
      (ca : GoString) (config : TlsConfig C P)
      → HasClientPool library ca config
      → HasClientPool library ca (asks config)
  unfolding asks
  asks-pool ca config h = record {
    pem = h.pem;
    pool = h.pool;
    is_read = h.is_read;
    is_added = h.is_added;
    is_set = h.is_set;
  }

  demanded :
      (tls : Bool) (cert key ca : GoString) (old new : Option (TlsConfig C P))
      → config_if tls
          (with_client_auth ca (tls_config_from_files library cert key ca client_ca false))
          old
        ≡ returns new
      → tls ≡ true
      → ca ≢ []
      → (config : TlsConfig C P) × (new ≡ some config)
        × (config.client_auth ≡ require_and_verify)
        × HasClientPool library ca config
  unfolding asks
  demanded false cert key ca old new h on named = absurd (cc)
  demanded true cert key [] old new h on named = absurd (named refl)
  demanded true cert key (c ∷ ca) old new h on named =
      let files = tls_config_from_files library cert key (c ∷ ca) client_ca false in
      let (guarded, h₁, g₁) =
        and_then-returns (and_then files λ config. returns (asks config))
          (λ config. returns (some config)) h in
      let (config, h₂, g₂) = and_then-returns files (λ config. returns (asks config)) h₁ in
      (
        guarded,
        sym (returns-eq g₁),
        sym (ap (λ (x : TlsConfig C P). x.client_auth) (returns-eq g₂)),
        subst (HasClientPool library (c ∷ ca)) (returns-eq g₂)
            (asks-pool (c ∷ ca) config (files-pool cert key c ca false config h₂)),
      )

module _ {C P F I : Type 0} (library : TlsLibrary C P) where
  -- The server asks each client for a certificate and verifies it against that pool.
  abbrev pub Demands : Settings C P F I → Type 0
  Demands s =
      (config : TlsConfig C P) × (s.grpc_server_tls_config ≡ some config)
      × (config.client_auth ≡ require_and_verify)
      × HasClientPool library s.grpc_client_tls_ca_cert config

  -- The same, of settings that ask for it.
  abbrev IsGuarded : Settings C P F I → Type 0
  IsGuarded s = s.grpc_server_use_tls ≡ true → s.grpc_client_tls_ca_cert ≢ [] → Demands s

  server-IsGuarded :
      (s t : Settings C P F I) → grpc_server_tls_config library s ≡ returns t → IsGuarded t
  unfolding grpc_server_tls_config
  server-IsGuarded s t h =
      let read =
        config_if s.grpc_server_use_tls
          (with_client_auth s.grpc_client_tls_ca_cert (
            tls_config_from_files library s.grpc_server_tls_cert s.grpc_server_tls_key
              s.grpc_client_tls_ca_cert client_ca false))
          s.grpc_server_tls_config in
      let (config, h₁, g₁) =
        and_then-returns read (λ config. returns (record s { grpc_server_tls_config = config }))
          h in
      subst IsGuarded (returns-eq g₁) (
        demanded library s.grpc_server_use_tls s.grpc_server_tls_cert s.grpc_server_tls_key
          s.grpc_client_tls_ca_cert s.grpc_server_tls_config config h₁)

  xds-IsGuarded :
      (s t : Settings C P F I)
      → config_grpc_xds_server_tls_config library s ≡ returns t
      → IsGuarded s
      → IsGuarded t
  unfolding config_grpc_xds_server_tls_config
  xds-IsGuarded s t h guarded =
      let read =
        config_if s.config_grpc_xds_server_use_tls
          (with_client_auth s.config_grpc_xds_server_tls_ca_cert (
            tls_config_from_files library s.config_grpc_xds_client_tls_cert
              s.config_grpc_xds_client_tls_key s.config_grpc_xds_server_tls_ca_cert server_ca
              false))
          s.config_grpc_xds_tls_config in
      let (config, h₁, g₁) =
        and_then-returns read (λ config. returns (record s { config_grpc_xds_tls_config = config }))
          h in
      subst IsGuarded (returns-eq g₁) guarded

  -- Settings that NewSettings returns, which use TLS for the gRPC server and name a CA file for its
  -- clients: the server requires a certificate of each client and verifies it, against the system's
  -- pool with the certificates that the file was found to hold.
  pub new_settings-Demands :
      (env : Settings C P F I ⊎ GoString) (s : Settings C P F I)
      → new_settings library env ≡ returns s
      → s.grpc_server_use_tls ≡ true
      → s.grpc_client_tls_ca_cert ≢ []
      → Demands s
  unfolding new_settings
  new_settings-Demands env s h on named =
      let rest₃ = λ (s : Settings C P F I). config_grpc_xds_server_tls_config library s in
      let rest₂ = λ (s : Settings C P F I). and_then (grpc_server_tls_config library s) rest₃ in
      let rest₁ =
        λ (s : Settings C P F I). and_then (memcache_tls_config library s.memcache_tls s) rest₂ in
      let (s₀, h₀, g₀) =
        and_then-returns (or_env_error library env)
          (λ s. and_then (redis_tls_config library (s.redis_tls || s.redis_per_second_tls) s) rest₁)
          h in
      let (s₁, h₁, g₁) =
        and_then-returns (redis_tls_config library (s₀.redis_tls || s₀.redis_per_second_tls) s₀)
          rest₁ g₀ in
      let (s₂, h₂, g₂) =
        and_then-returns (memcache_tls_config library s₁.memcache_tls s₁) rest₂ g₁ in
      let (s₃, h₃, g₃) = and_then-returns (grpc_server_tls_config library s₂) rest₃ g₂ in
      xds-IsGuarded s₃ s g₃ (server-IsGuarded s₂ s₃ h₃) on named
