-- ===== src/Provider/Safety.antt =====
-- No file makes the service panic, and one with an unknown key leaves its configuration as it was
-- (src/provider/file_provider.go and src/service/ratelimit.go).
use api_ratelimit.Service.Update.{set_config, ConfigUpdateEvent, Settings, Server}
use api_ratelimit.Provider.Orderly.{is_orderly-files_to_load, is_orderly-loaded}
use api_ratelimit.Config.Tree.{Node}
use api_ratelimit.Utils.{LimitUnit}
use api_ratelimit.Common.{
  GoString, text, and_then, Outcome-cases, Panic, Outcome, returns, panics, Dict, ℕ, ◌≡◌, refl, sym,
  ap, ◌∙◌, ◌⊎◌, inl, inr, Bool, true, false, not, ◌&&◌, Option, none, some, List, [], ◌∷◌, ◌++◌,
  arith,
}
use api_ratelimit.Common.Strings.{has_prefix}
use api_ratelimit.Config.Yaml.{YamlRoot, ConfigToLoad}
use api_ratelimit.Config.Keys.{
  is_valid_key, validate_yaml_keys, validate_yaml_keys-valid, YamlPairs, InPairs,
}
use api_ratelimit.Config.Load.{new_rate_limit_config_impl}
use api_ratelimit.Config.Xds.{ConfigPb}
use api_ratelimit.Config.Errors.{is_orderly, is_orderly-load_configs}
use api_ratelimit.Provider.{
  config_file_content_to_yaml, event_of, files_to_load, send_event, configs_of, event_and_reply,
  send_configs, YamlLibrary,
}

sum-cases : {A B : Type 0} (x : A ⊎ B) → ((a : A) × (x ≡ inl a)) ⊎ ((b : B) × (x ≡ inr b))
sum-cases (inl a) = inl (a, refl)
sum-cases (inr b) = inr (b, refl)

module _ (yaml : YamlLibrary) (watch_root : Bool) (directory : GoString) where
  -- A file that is loaded has been read.
  files_to_load-read :
      (before after : List (GoString × GoString)) (key content : GoString) (cs : List ConfigToLoad)
      → watch_root && not (has_prefix key (directory ++ text ".")) ≡ false
      → files_to_load yaml watch_root directory (before ++ (key, content) ∷ after) ≡ returns cs
      → (root : YamlRoot) × (config_file_content_to_yaml yaml key content ≡ returns root)
  unfolding files_to_load
  files_to_load-read [] after key content cs watched h =
      elim (Outcome-cases (config_file_content_to_yaml yaml key content)) [
        | inl found ↦ found
        | inr (p, e) ↦ absurd (ground (arith, watched, h, e))
      ]
  files_to_load-read ((j, c) ∷ before) after key content cs watched h =
      elim (Outcome-cases
        (files_to_load yaml watch_root directory (before ++ (key, content) ∷ after))) [
          | inl (cs', e) ↦ files_to_load-read before after key content cs' watched e
          | inr (p, e) ↦ absurd (ground (arith, h, e))
        ]

  -- A file that is read has only valid keys.
  config_file_content_to_yaml-valid :
      (file content k : GoString) (m : YamlPairs) (root : YamlRoot)
      → yaml.read_map content ≡ inl m
      → InPairs k m
      → config_file_content_to_yaml yaml file content ≡ returns root
      → is_valid_key k ≡ true
  unfolding config_file_content_to_yaml
  config_file_content_to_yaml-valid file content k m root read p h =
      elim (Outcome-cases (validate_yaml_keys file m)) [
        | inl (u, e) ↦ validate_yaml_keys-valid file k m e p
        | inr (q, e) ↦ absurd (ground (arith, read, h, e))
      ]

module _ (unit_value : GoString → Option LimitUnit) (unit_string : ℕ → GoString) {R : Type 0}
    (unmarshal : R → ConfigPb ⊎ GoString) where
  sent_configs :
      (merge : Bool) (resources : List R) (cs : List ConfigToLoad)
      → configs_of unit_value unit_string unmarshal resources ≡ inl cs
      → send_configs unit_value unit_string unmarshal (returns merge) resources
        ≡ event_and_reply unit_value unit_string unmarshal
            (new_rate_limit_config_impl unit_value merge cs)
  unfolding send_configs
  sent_configs merge resources cs h = rw (h, send_configs) refl

  nothing_sent :
      (merge : Bool) (resources : List R) (m : GoString)
      → configs_of unit_value unit_string unmarshal resources ≡ inr m
      → (send_configs unit_value unit_string unmarshal (returns merge) resources).0 ≡ none
  unfolding send_configs
  nothing_sent merge resources m h = rw (h, send_configs) refl

failed_files :
    {A B : Type 0} (o : Outcome A) (f : A → Outcome B) {q : Panic}
    → o ≡ panics q
    → is_orderly o ≡ true
    → is_orderly (and_then o f) ≡ true
failed_files (panics p) f e h = h
failed_files (returns a) f e h = absurd (cc)

module _ {B : Type 0} (settings : Outcome Settings) (healthy : Bool) where
  failed_event :
      (o : Outcome (Dict Node)) (s : Server B) (p : Panic)
      → is_orderly o ≡ true
      → o ≡ panics p
      → (set_config settings healthy (event_of o) s).1.service.config ≡ s.service.config
  unfolding set_config event_of
  failed_event o s p h e = ground arith

  module _ (unit_value : GoString → Option LimitUnit) (yaml : YamlLibrary) (watch_root : Bool)
      (directory : GoString) (merge : Outcome Bool) where
    -- Where one file that is not skipped has a key, at any depth, that is no valid key, the service
    -- keeps the configuration that it has.
    pub set_config-invalid_key :
        (before after : List (GoString × GoString)) (file content k : GoString) (m : YamlPairs)
        (s : Server B)
        → watch_root && not (has_prefix file (directory ++ text ".")) ≡ false
        → yaml.read_map content ≡ inl m
        → InPairs k m
        → is_valid_key k ≡ false
        → (set_config settings healthy
            (send_event unit_value yaml watch_root directory merge
              (before ++ (file, content) ∷ after))
            s).1.service.config
          ≡ s.service.config
    unfolding send_event
    set_config-invalid_key before after file content k m s watched read p bad =
        elim (Outcome-cases
          (files_to_load yaml watch_root directory (before ++ (file, content) ∷ after))) [
            | inl (cs, e) ↦
                let (root, loaded) =
                  files_to_load-read yaml watch_root directory before after file content cs watched
                    e in
                absurd (
                  ground (
                    arith,
                    bad,
                    config_file_content_to_yaml-valid yaml watch_root directory file content k m
                        root read p loaded,
                  ))
            | inr (q, e) ↦
                failed_event _ s q
                  (failed_files
                    (files_to_load yaml watch_root directory (before ++ (file, content) ∷ after))
                    (λ cs. and_then merge λ m. new_rate_limit_config_impl unit_value m cs) e
                    (is_orderly-files_to_load yaml watch_root directory
                      (before ++ (file, content) ∷ after)))
                  (rw e refl)
          ]

module _ {B : Type 0} (settings : Settings) (healthy : Bool) where
  orderly_event :
      (o : Outcome (Dict Node)) (s : Server B)
      → is_orderly o ≡ true
      → (set_config (returns settings) healthy (event_of o) s).0 ≡ returns tt
  unfolding set_config event_of
  orderly_event (returns c) s h = refl
  orderly_event (panics p) s h = ground arith

  module _ (unit_value : GoString → Option LimitUnit) (yaml : YamlLibrary) (watch_root : Bool)
      (directory : GoString) (merge : Bool) where
    -- Where NewSettings returns, whatever the files hold, the service takes the event of the provider without a panic.
    set_config-send_event :
        (snapshot : List (GoString × GoString)) (s : Server B)
        → (set_config
            (returns settings)
            healthy
            (send_event unit_value yaml watch_root directory (returns merge) snapshot)
            s).0
          ≡ returns tt
    unfolding send_event
    set_config-send_event snapshot s =
        orderly_event _ s (is_orderly-loaded yaml watch_root directory unit_value merge snapshot)

  module _ (unit_value : GoString → Option LimitUnit) (unit_string : ℕ → GoString) {R : Type 0}
      (unmarshal : R → ConfigPb ⊎ GoString) where
    orderly_reply :
        (o : Outcome (Dict Node)) (e : ConfigUpdateEvent) (s : Server B)
        → is_orderly o ≡ true
        → (event_and_reply unit_value unit_string unmarshal o).0 ≡ some e
        → (set_config (returns settings) healthy e s).0 ≡ returns tt
    unfolding event_and_reply set_config
    orderly_reply (returns c) e s h sent = ground (arith, sent)
    orderly_reply (panics p) e s h sent = ground (arith, h, sent)

    -- Where NewSettings returns, whatever the xDS server sends, the service takes the event that comes of it, if one does,
    -- without a panic.
    pub set_config-send_configs :
        (merge : Bool) (resources : List R) (e : ConfigUpdateEvent) (s : Server B)
        → (send_configs unit_value unit_string unmarshal (returns merge) resources).0 ≡ some e
        → (set_config (returns settings) healthy e s).0 ≡ returns tt
    unfolding new_rate_limit_config_impl
    set_config-send_configs merge resources e s sent =
        elim (sum-cases (configs_of unit_value unit_string unmarshal resources)) [
          | inl (cs, h) ↦
              orderly_reply (new_rate_limit_config_impl unit_value merge cs) e s
                (is_orderly-load_configs unit_value merge [] cs)
                (sym (
                    ap (λ x. x.0)
                      (sent_configs unit_value unit_string unmarshal merge resources cs h))
                  ∙ sent)
          | inr (m, h) ↦ absurd (
              ground
                (arith, sent, nothing_sent unit_value unit_string unmarshal merge resources m h))
        ]
