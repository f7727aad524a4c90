-- ===== src/Utils/Tls.antt =====
-- src/utils/tls.go and src/server/tls.go. The files and the libraries crypto/tls and crypto/x509 are
-- parameters: `C` is a key pair, `P` a pool of certificates, `X` a certificate.

-- utils/tls.go, CAType
use api_ratelimit.Common.{
  if◌then◌else◌, GoString, text, ◌==◌, and_then, Panic, other_error, Outcome, returns, panics, ◌⊎◌,
  inl, inr, Bool, true, false, not, ◌&&◌, Option, none, some, List, [], ◌∷◌, ◌++◌,
}

pub data CaType : Type 0 where
  client_ca server_ca : CaType

-- tls.ClientAuthType; NoClientCert is the zero value.
pub data ClientAuth : Type 0 where
  no_client_cert require_and_verify : ClientAuth

-- tls.Config, the fields that the code sets. `verify_chain` tells that VerifyPeerCertificate is the
-- function of TlsConfigFromFiles.
pub record TlsConfig (C P : Type 0) : Type 0 where
  pub insecure_skip_verify : Bool
  pub verify_chain : Bool
  pub certificates : List C
  pub client_cas : Option P
  pub root_cas : Option P
  pub client_auth : ClientAuth
  pub server_name : GoString

-- tls.LoadX509KeyPair, x509.SystemCertPool or else x509.NewCertPool, AppendCertsFromPEM, os.ReadFile
pub record TlsLibrary (C P : Type 0) : Type 0 where
  pub load_key_pair : GoString → GoString → C ⊎ GoString
  pub system_pool : P
  pub append_certs : P → GoString → Option P
  pub read_file : GoString → GoString ⊎ GoString

module _ {C P : Type 0} where
  -- &tls.Config{}
  abbrev pub empty_config : TlsConfig C P
  empty_config = record {
    insecure_skip_verify = false;
    verify_chain = false;
    certificates = [];
    client_cas = none;
    root_cas = none;
    client_auth = no_client_cert;
    server_name = [];
  }

  -- TlsConfigFromFiles: the switch on the kind of the CA
  unfoldable pub set_pool : CaType → P → TlsConfig C P → TlsConfig C P
  set_pool client_ca pool config = record config { client_cas = some pool }
  set_pool server_ca pool config = record config { root_cas = some pool }

  module _ (library : TlsLibrary C P) where
    abbrev pub or_read_error : GoString → GoString ⊎ GoString → Outcome GoString
    or_read_error name (inl b) = returns b
    or_read_error name (inr e) =
        panics (other_error (text "failed to read file: " ++ (name ++ (text ": " ++ e))))

    -- utils/tls.go, mustReadFile
    unfoldable pub must_read_file : GoString → Outcome GoString
    must_read_file name = or_read_error name (library.read_file name)

    abbrev pub or_pair_error : GoString → GoString → C ⊎ GoString → Outcome (List C)
    or_pair_error cert key (inl c) = returns (c ∷ [])
    or_pair_error cert key (inr e) = panics (
        other_error (
          text "failed lo load TLS key pair ("
          ++ (cert ++ (text "," ++ (key ++ (text "): " ++ e))))))

    -- TlsConfigFromFiles: the certificates, where both files are named
    unfoldable pub key_pairs : GoString → GoString → Outcome (List C)
    key_pairs cert key =
        if not (cert == []) && not (key == [])
        then or_pair_error cert key (library.load_key_pair cert key)
        else returns []

    abbrev pub or_pool_error : GoString → Option P → Outcome P
    or_pool_error ca (some pool) = returns pool
    or_pool_error ca none =
        panics (other_error (text "failed to load the provided TLS CA certificate: " ++ ca))

    -- TlsConfigFromFiles: the CA file, if one is named
    unfoldable pub with_ca : GoString → CaType → TlsConfig C P → Outcome (TlsConfig C P)
    unfolding must_read_file set_pool
    with_ca ca ca_type config =
        if ca == []
        then returns config
        else and_then (must_read_file ca) λ pem.
          and_then (or_pool_error ca (library.append_certs library.system_pool pem))
            λ pool. returns (set_pool ca_type pool config)

    -- utils/tls.go, TlsConfigFromFiles
    unfoldable pub tls_config_from_files :
        GoString → GoString → GoString → CaType → Bool → Outcome (TlsConfig C P)
    unfolding key_pairs with_ca
    tls_config_from_files cert key ca ca_type skip_hostname_verification =
        and_then (key_pairs cert key) λ pairs. with_ca ca ca_type (record empty_config {
          insecure_skip_verify = skip_hostname_verification;
          verify_chain = skip_hostname_verification;
          certificates = pairs;
        })

-- x509.VerifyOptions; the usage is ExtKeyUsageClientAuth or the default.
pub record VerifyOptions (P X : Type 0) : Type 0 where
  pub roots : Option P
  pub intermediates : List X
  pub dns_name : GoString
  pub for_client_auth : Bool

-- x509.ParseCertificate and Certificate.Verify, which gives an error or none
pub record CertLibrary (P X : Type 0) : Type 0 where
  pub parse : GoString → X ⊎ GoString
  pub verify : X → VerifyOptions P X → Option GoString

module _ {P X : Type 0} (library : CertLibrary P X) where
  -- TlsConfigFromFiles: the loop over the certificates of the server
  unfoldable pub parse_certs : List GoString → List X ⊎ GoString
  parse_certs [] = inl []
  parse_certs (raw ∷ raws) = elim (library.parse raw) [
    | inr e ↦ inr (text "tls: failed to parse certificate from server: " ++ e)
    | inl cert ↦ elim (parse_certs raws) [ inr e ↦ inr e | inl certs ↦ inl (cert ∷ certs) ]
  ]

  abbrev index_out_of_range : Panic
  index_out_of_range = other_error (text "index out of range [0] with length 0")

  abbrev pub verify_first : Option P → List X ⊎ GoString → Outcome (Option GoString)
  verify_first roots (inr e) = returns (some e)
  verify_first roots (inl []) = panics index_out_of_range
  verify_first roots (inl (cert ∷ certs)) = returns (
      library.verify cert
        (record { roots = roots; intermediates = certs; dns_name = []; for_client_auth = false }))

  -- TlsConfigFromFiles: VerifyPeerCertificate, with the pool that the configuration has at the call
  unfoldable pub verify_certificates : Option P → List GoString → Outcome (Option GoString)
  unfolding parse_certs
  verify_certificates root_cas certificates = verify_first root_cas (parse_certs certificates)

  abbrev pub client_options : Option P → GoString → List X → VerifyOptions P X
  client_options pool san certs = record {
    roots = pool;
    intermediates = certs;
    dns_name = san;
    for_client_auth = true;
  }

  abbrev or_next : Option GoString → Option GoString → Option GoString
  or_next none later = later
  or_next (some e) later = some e

  -- server/tls.go, verifyClient: the loop over the verified chains; `none` accepts the client.
  unfoldable pub verify_client : Option P → GoString → List (List X) → Option GoString
  verify_client pool san [] = none
  verify_client pool san ([] ∷ chains) = some (text "missing client cert")
  verify_client pool san ((cert ∷ certs) ∷ chains) =
      or_next (library.verify cert (client_options pool san certs)) (verify_client pool san chains)
