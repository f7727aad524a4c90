-- ===== src/Provider.antt =====
-- src/provider/file_provider.go, src/provider/xds_grpc_sotw_provider.go and ConfigFileContentToYaml of
-- src/config/config_impl.go: from what a provider receives to the event for the service. The libraries
-- that read YAML and protocol buffers and the directory that is watched are parameters.
pub mod Orderly
pub mod Safety
pub mod Loop
pub mod Forms
pub mod Cert
pub mod Updates
pub mod ClientNode
use api_ratelimit.Common.{
  if◌then◌else◌, GoString, text, and_then, Panic, redis_error, service_error, config_error,
  memcache_error, other_error, Outcome, returns, panics, Dict, ℕ, ◌⊎◌, inl, inr, Bool, not, ◌&&◌,
  Option, none, some, List, [], ◌∷◌, ◌++◌,
}
use api_ratelimit.Common.Strings.{has_prefix}
use api_ratelimit.Utils.{LimitUnit}
use api_ratelimit.Config.Tree.{Node}
use api_ratelimit.Config.Yaml.{YamlRoot, ConfigToLoad}
use api_ratelimit.Config.Keys.{validate_yaml_keys, YamlPairs}
use api_ratelimit.Config.Xds.{config_xds_proto_to_yaml, ConfigPb}
use api_ratelimit.Config.Load.{new_rate_limit_config_error, new_rate_limit_config_impl}
use api_ratelimit.Service.Update.{ConfigUpdateEvent, new_config, load_error}

-- yaml.Unmarshal into a map and into `YamlRoot`: a value, or the text of an error.
pub record YamlLibrary : Type 0 where
  pub read_map : GoString → YamlPairs ⊎ GoString
  pub read_root : GoString → YamlRoot ⊎ GoString

abbrev pub or_load_error : {A : Type 0} → GoString → A ⊎ GoString → Outcome A
or_load_error file (inl a) = returns a
or_load_error file (inr e) =
    panics (new_rate_limit_config_error file (text "error loading config file: " ++ e))

-- config_impl.go, ConfigFileContentToYaml
unfoldable pub config_file_content_to_yaml : YamlLibrary → GoString → GoString → Outcome YamlRoot
unfolding validate_yaml_keys new_rate_limit_config_error
config_file_content_to_yaml yaml file content =
    and_then (or_load_error file (yaml.read_map content))
      λ m. and_then (validate_yaml_keys file m) λ _. or_load_error file (yaml.read_root content)

-- What the deferred functions make of a load.
unfoldable pub event_of : Outcome (Dict Node) → ConfigUpdateEvent
event_of (returns c) = new_config c
event_of (panics p) = load_error p

-- file_provider.go, sendEvent: the loop over the files of a snapshot, each with its content
unfoldable pub files_to_load :
    YamlLibrary → Bool → GoString → List (GoString × GoString) → Outcome (List ConfigToLoad)
unfolding config_file_content_to_yaml
files_to_load yaml watch_root directory [] = returns []
files_to_load yaml watch_root directory ((key, content) ∷ rest) =
    if watch_root && not (has_prefix key (directory ++ text "."))
    then files_to_load yaml watch_root directory rest
    else and_then (config_file_content_to_yaml yaml key content) λ root.
      and_then (files_to_load yaml watch_root directory rest)
        λ cs. returns (record { name = key; config_yaml = root } ∷ cs)

-- What a provider answers to the xDS server.
pub data XdsReply : Type 0 where
  ack : XdsReply
  nack : GoString → XdsReply

abbrev pub panic_text : Panic → GoString
panic_text (redis_error e) = e
panic_text (service_error e) = e
panic_text (config_error e) = e
panic_text (memcache_error e) = e
panic_text (other_error e) = e

module _ (unit_value : GoString → Option LimitUnit) where
  -- file_provider.go, sendEvent. `merge` is the setting as NewSettings reads it, which may panic.
  unfoldable pub send_event :
      YamlLibrary → Bool → GoString → Outcome Bool → List (GoString × GoString) → ConfigUpdateEvent
  unfolding files_to_load new_rate_limit_config_impl event_of
  send_event yaml watch_root directory merge snapshot = event_of (
      and_then (files_to_load yaml watch_root directory snapshot)
        λ cs. and_then merge λ m. new_rate_limit_config_impl unit_value m cs)

  module _ (unit_string : ℕ → GoString) {R : Type 0} (unmarshal : R → ConfigPb ⊎ GoString) where
    -- xds_grpc_sotw_provider.go, sendConfigs: the loop over the resources
    unfoldable pub configs_of : List R → List ConfigToLoad ⊎ GoString
    unfolding config_xds_proto_to_yaml
    configs_of [] = inl []
    configs_of (r ∷ rs) = elim (unmarshal r) [
      | inr e ↦ inr e
      | inl pb ↦ elim (configs_of rs) [
        | inr e ↦ inr e
        | inl cs ↦
            inl (
              record { name = pb.name; config_yaml = config_xds_proto_to_yaml unit_string pb } ∷ cs)
      ]
    ]

    unfoldable pub event_and_reply : Outcome (Dict Node) → Option ConfigUpdateEvent × XdsReply
    event_and_reply (returns c) = (some (new_config c), ack)
    event_and_reply (panics p) = (some (load_error p), nack (panic_text p))

    -- xds_grpc_sotw_provider.go, sendConfigs
    unfoldable pub send_configs : Outcome Bool → List R → Option ConfigUpdateEvent × XdsReply
    unfolding configs_of event_and_reply new_rate_limit_config_impl
    send_configs merge resources = elim (configs_of resources) [
      | inr e ↦ (none, nack e)
      | inl cs ↦ event_and_reply (and_then merge λ m. new_rate_limit_config_impl unit_value m cs)
    ]
