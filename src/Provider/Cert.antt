-- ===== src/Provider/Cert.antt =====
-- src/provider/cert_provider.go. The loader that watches the directory and the files are parameters; each
-- update comes with what the files hold then. A reload holds the lock, and is a step.
use api_ratelimit.Common.{
  Option-cases, GoString, ◌==◌, eq_sound, ◌≡◌, refl, inl, inr, Bool, Option, none, some, List, [],
  ◌∷◌,
}
use api_ratelimit.Common.Process.{
  and_run, or_fatal, and_run-runs, or_fatal-runs, Process, runs, fatal,
}

-- filepath.Dir and filepath.Base, and whether loader.New2 succeeds for a path and a subdirectory
pub record RuntimeLibrary : Type 0 where
  pub dir : GoString → GoString
  pub base : GoString → GoString
  pub new_loader : GoString → GoString → Bool

-- tls.LoadX509KeyPair on the files of a moment; `none` is an error.
abbrev pub KeyFiles : Type 0 → Type 0
KeyFiles C = GoString → GoString → Option C

-- cert_provider.go, CertProvider
pub record CertProvider (C : Type 0) : Type 0 where
  pub cert : Option C
  pub cert_directory : GoString
  pub cert_file : GoString
  pub key_file : GoString

module _ {C : Type 0} where
  -- reloadCert, by what was loaded and the certificate so far: an error ends the process where there
  -- is no certificate to keep.
  abbrev pub keep_or_set : Option C → Option C → CertProvider C → Process (CertProvider C)
  keep_or_set (some cert) old p = runs (record p { cert = some cert })
  keep_or_set none none p = fatal
  keep_or_set none (some cert) p = runs p

  -- cert_provider.go, reloadCert
  unfoldable pub reload_cert : KeyFiles C → CertProvider C → Process (CertProvider C)
  reload_cert files p = keep_or_set (files p.cert_file p.key_file) p.cert p

  -- cert_provider.go, setupRuntime
  unfoldable pub setup_runtime : RuntimeLibrary → CertProvider C → Process (Unit {0})
  setup_runtime library p =
      or_fatal (library.new_loader (library.dir p.cert_directory) (library.base p.cert_directory))

  -- cert_provider.go, NewCertProvider
  unfoldable pub new_cert_provider :
      RuntimeLibrary → KeyFiles C → GoString → GoString → Process (CertProvider C)
  unfolding reload_cert setup_runtime
  new_cert_provider library files cert_file key_file =
      let p : CertProvider C = record {
        cert = none;
        cert_directory = library.dir cert_file;
        cert_file = cert_file;
        key_file = key_file;
      } in
      and_run (or_fatal (library.dir cert_file == library.dir key_file))
        λ _. and_run (setup_runtime library p) λ _. reload_cert files p

  -- cert_provider.go, watch: the loop, over the updates
  unfoldable pub watch_certs : List (KeyFiles C) → CertProvider C → Process (CertProvider C)
  unfolding reload_cert
  watch_certs [] p = runs p
  watch_certs (files ∷ later) p = and_run (reload_cert files p) λ q. watch_certs later q

  -- cert_provider.go, GetCertificateFunc
  unfoldable pub get_certificate : CertProvider C → Option C
  get_certificate p = p.cert

  -- The key pair of the last update at which one could be loaded.
  abbrev pub last_loaded : GoString → GoString → C → List (KeyFiles C) → C
  last_loaded cert_file key_file c [] = c
  last_loaded cert_file key_file c (files ∷ later) = elim (files cert_file key_file) [
    | none ↦ last_loaded cert_file key_file c later
    | some d ↦ last_loaded cert_file key_file d later
  ]

  set_or_fatal :
      (o : Option C) (p q : CertProvider C)
      → keep_or_set o none p ≡ runs q
      → (c : C) × (o ≡ some c) × (q ≡ record p { cert = some c })
  set_or_fatal none p q h = cc
  set_or_fatal (some c) p q h = (c, refl, cc)

  last_watched :
      (later : List (KeyFiles C)) (c : C) (p : CertProvider C)
      → watch_certs later (record p { cert = some c })
        ≡ runs (record p { cert = some (last_loaded p.cert_file p.key_file c later) })
  unfolding watch_certs reload_cert
  last_watched [] c p = refl
  last_watched (files ∷ later) c p = elim (Option-cases (files p.cert_file p.key_file)) [
    | inl e ↦ rw e (last_watched later c p)
    | inr (d, e) ↦ rw e (last_watched later d p)
  ]

  -- A provider that starts has the key pair of its two files, which stand in one directory. Whatever
  -- the files hold at the updates that follow, the process goes on, and a handshake gets the key
  -- pair of the last update at which one could be loaded, or else the first one.
  pub serves_last :
      (library : RuntimeLibrary) (files : KeyFiles C) (cert_file key_file : GoString)
      (p : CertProvider C) (later : List (KeyFiles C))
      → new_cert_provider library files cert_file key_file ≡ runs p
      → (library.dir cert_file ≡ library.dir key_file)
        × ((c : C) × (q : CertProvider C) × (files cert_file key_file ≡ some c)
            × (watch_certs later p ≡ runs q)
            × (get_certificate q ≡ some (last_loaded cert_file key_file c later)))
  unfolding new_cert_provider reload_cert get_certificate
  serves_last library files cert_file key_file p later h =
      let p₀ : CertProvider C = record {
        cert = none;
        cert_directory = library.dir cert_file;
        cert_file = cert_file;
        key_file = key_file;
      } in
      let (u, h₁, g₁) =
        and_run-runs (or_fatal (library.dir cert_file == library.dir key_file))
          (λ _. and_run (setup_runtime library p₀) λ _. reload_cert files p₀) h in
      let (v, h₂, g₂) = and_run-runs (setup_runtime library p₀) (λ _. reload_cert files p₀) g₁ in
      let (c, loaded, e) = set_or_fatal (files cert_file key_file) p₀ p g₂ in
      (
        eq_sound (library.dir cert_file) (library.dir key_file)
            (or_fatal-runs (library.dir cert_file == library.dir key_file) h₁),
        (
          c,
          record p₀ { cert = some (last_loaded cert_file key_file c later) },
          loaded,
          rw e (last_watched later c p₀),
          refl,
        ),
      )
