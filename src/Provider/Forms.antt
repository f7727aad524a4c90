-- ===== src/Provider/Forms.antt =====
-- One configuration in both forms: files and xDS resources (src/provider, src/config/config_xds.go).
use api_ratelimit.Common.{
  All, GoString, and_then, Outcome, returns, panics, Dict, ℕ, ◌≡◌, refl, ap, ◌⊎◌, inl, Bool, Option,
  none, some, List, [], ◌∷◌, map,
}
use api_ratelimit.Utils.{LimitUnit}
use api_ratelimit.Config.Yaml.{
  YamlReplaces, YamlRateLimit, YamlDescriptors, no_items, item, ConfigToLoad,
}
use api_ratelimit.Config.Tree.{Node}
use api_ratelimit.Config.Xds.{
  replaces_pb_to_yaml, policy_pb_to_yaml, descriptors_pb_to_yaml, config_xds_proto_to_yaml,
  PolicyPb, DescriptorsPb, no_descriptors_pb, descriptor_pb, ConfigPb,
}
use api_ratelimit.Config.Load.{new_rate_limit_config_impl}
use api_ratelimit.Provider.{
  event_of, files_to_load, send_event, configs_of, event_and_reply, send_configs, YamlLibrary,
}

abbrev pub name_of : YamlReplaces → GoString
name_of r = r.name

replaces_lem : (rs : List YamlReplaces) → replaces_pb_to_yaml (map name_of rs) ≡ rs
unfolding replaces_pb_to_yaml
replaces_lem [] = refl
replaces_lem (r ∷ rs) = ap (λ x. r ∷ x) (replaces_lem rs)

-- The enumeration of the units: the name of a number, and the number of a name.
module _ (unit_string : ℕ → GoString) (unit_number : GoString → ℕ) where
  abbrev pub policy_to_pb : Option YamlRateLimit → Option PolicyPb
  policy_to_pb none = none
  policy_to_pb (some l) = some (record {
    requests_per_unit = l.requests_per_unit;
    unit = unit_number l.unit;
    unlimited = l.unlimited;
    name = l.name;
    replaces = map name_of l.replaces;
  })

  -- Descriptors of a file as the protocol has them.
  unfoldable pub descriptors_to_pb : YamlDescriptors → DescriptorsPb
  descriptors_to_pb no_items = no_descriptors_pb
  descriptors_to_pb (item key value limit children shadow detailed rest) =
      descriptor_pb key value (policy_to_pb limit) (descriptors_to_pb children) shadow detailed
        (descriptors_to_pb rest)

  abbrev pub config_to_pb : ConfigToLoad → ConfigPb
  config_to_pb c = record {
    name = c.name;
    domain = c.config_yaml.domain;
    descriptors = descriptors_to_pb c.config_yaml.descriptors;
  }

  -- The unit of a limit is written as the enumeration names it.
  abbrev pub IsNamed : Option YamlRateLimit → Type 0
  IsNamed none = Unit
  IsNamed (some l) = unit_string (unit_number l.unit) ≡ l.unit

  abbrev pub AreNamed : YamlDescriptors → Type 0
  AreNamed no_items = Unit
  AreNamed (item key value limit children shadow detailed rest) =
      IsNamed limit × (AreNamed children × AreNamed rest)

  policy_lem :
      (limit : Option YamlRateLimit)
      → IsNamed limit
      → policy_pb_to_yaml unit_string (policy_to_pb limit) ≡ limit
  unfolding policy_pb_to_yaml
  policy_lem none h = refl
  policy_lem (some l) h = rw (h, replaces_lem l.replaces) refl

  descriptors_lem :
      (ds : YamlDescriptors)
      → AreNamed ds
      → descriptors_pb_to_yaml unit_string (descriptors_to_pb ds) ≡ ds
  unfolding descriptors_pb_to_yaml descriptors_to_pb
  descriptors_lem no_items h = refl
  descriptors_lem (item key value limit children shadow detailed rest) (h, (hc, hr)) =
      rw (policy_lem limit h, descriptors_lem children hc, descriptors_lem rest hr) refl

  abbrev pub IsNamedConfig : ConfigToLoad → Type 0
  IsNamedConfig c = AreNamed c.config_yaml.descriptors

  module _ (unit_value : GoString → Option LimitUnit) {R : Type 0} (marshal : ConfigPb → R)
      (unmarshal : R → ConfigPb ⊎ GoString) where
    -- The resources of a list of configurations.
    abbrev pub resources_of : List ConfigToLoad → List R
    resources_of cs = map (λ c. marshal (config_to_pb c)) cs

    configs_lem :
        (cs : List ConfigToLoad)
        → ((pb : ConfigPb) → unmarshal (marshal pb) ≡ inl pb)
        → All IsNamedConfig cs
        → configs_of unit_value unit_string unmarshal (resources_of cs) ≡ inl cs
    unfolding configs_of config_xds_proto_to_yaml
    configs_lem [] read h = refl
    configs_lem (c ∷ cs) read (h, hs) =
        rw
          (
            read (config_to_pb c),
            configs_lem cs read hs,
            descriptors_lem c.config_yaml.descriptors h,
          )
          refl

    event_lem :
        (o : Outcome (Dict Node))
        → (event_and_reply unit_value unit_string unmarshal o).0 ≡ some (event_of o)
    unfolding event_and_reply event_of
    event_lem (returns c) = refl
    event_lem (panics p) = refl

    -- Where the files of a directory are read as configurations whose units are written as the
    -- enumeration names them, and what is marshalled is unmarshalled again: the xDS resources of these
    -- configurations lead to the same event for the service as the files, be it a configuration or an
    -- error of the load.
    pub send_configs-send_event :
        (yaml : YamlLibrary) (watch_root : Bool) (directory : GoString) (merge : Outcome Bool)
        (snapshot : List (GoString × GoString)) (cs : List ConfigToLoad)
        → files_to_load yaml watch_root directory snapshot ≡ returns cs
        → ((pb : ConfigPb) → unmarshal (marshal pb) ≡ inl pb)
        → All IsNamedConfig cs
        → (send_configs unit_value unit_string unmarshal merge (resources_of cs)).0
          ≡ some (send_event unit_value yaml watch_root directory merge snapshot)
    unfolding send_configs send_event
    send_configs-send_event yaml watch_root directory merge snapshot cs loaded read h =
        rw (configs_lem cs read h, send_configs, send_event, loaded)
          (event_lem (and_then merge λ m. new_rate_limit_config_impl unit_value m cs))
