-- ===== src/Config/Load.antt =====
-- src/config/config_impl.go: the check and the load of parsed files. A panic ends the load, and the
-- configuration that it was building is dropped with it.
use api_ratelimit.Common.{
  if◌then◌else◌, nat_eq, GoString, text, ◌==◌, and_then, check, Panic, config_error, Outcome,
  returns, panics, Dict, insert, lookup, Bool, true, false, not, Option, none, some, List, [], ◌∷◌,
  ◌++◌, map,
}
use api_ratelimit.Common.Strings.{to_upper}
use api_ratelimit.Utils.{LimitUnit, unknown}
use api_ratelimit.Stats.{new_stats}
use api_ratelimit.Config.Limit.{new_rate_limit, RateLimit}
use api_ratelimit.Config.Yaml.{
  YamlReplaces, YamlRateLimit, YamlDescriptors, no_items, item, ConfigToLoad,
}
use api_ratelimit.Config.Tree.{empty_node, find, put, Node}

-- config_impl.go, newRateLimitConfigError
unfoldable pub new_rate_limit_config_error : GoString → GoString → Panic
new_rate_limit_config_error name err = config_error (name ++ (text ": " ++ err))

-- The key of a descriptor in the map of its parent.
unfoldable pub final_key : GoString → GoString → GoString
final_key key [] = key
final_key key (c ∷ value) = key ++ b'_' ∷ c ∷ value

-- finalKey[len(finalKey)-1:] == "*"
unfoldable pub ends_with_star : GoString → Bool
ends_with_star [] = false
ends_with_star (c ∷ []) = nat_eq c b'*'
ends_with_star (c ∷ d ∷ s) = ends_with_star (d ∷ s)

abbrev pub is_unknown : LimitUnit → Bool
is_unknown unknown = true
is_unknown _ = false

abbrev pub or_zero : Option LimitUnit → LimitUnit
or_zero none = unknown
or_zero (some u) = u

abbrev pub is_valid_unit : Option LimitUnit → Bool
is_valid_unit none = false
is_valid_unit (some u) = not (is_unknown u)

-- config_impl.go, loadDescriptors: the check of the unit
unfoldable pub check_unit : GoString → YamlRateLimit → Bool → Outcome (Unit {0})
check_unit file yaml valid =
    if yaml.unlimited
    then check
        (new_rate_limit_config_error file
          (text "should not specify rate limit unit when unlimited"))
        (not valid)
    else check
        (new_rate_limit_config_error file
          (text "invalid rate limit unit '" ++ (yaml.unit ++ text "'")))
        valid

-- config_impl.go, loadDescriptors: the loop that checks the names that a limit replaces
unfoldable pub check_replaces : GoString → GoString → List YamlReplaces → Outcome (Unit {0})
check_replaces file name [] = returns tt
check_replaces file name (r ∷ rs) =
    and_then
      (check (new_rate_limit_config_error file (text "should not have an empty replaces entry"))
        (not (r.name == [])))
      λ _.
        and_then
          (check
            (new_rate_limit_config_error file
              (text "replaces should not contain name of same descriptor"))
            (not (r.name == name)))
          λ _. check_replaces file name rs

abbrev pub is_absent : Option Node → Bool
is_absent none = true
is_absent (some n) = false

-- config_impl.go, loadDescriptors: the new entry of the map, and of the wildcard keys
unfoldable pub add_descriptor : GoString → Option RateLimit → Node → Node → Node
unfolding ends_with_star
add_descriptor key limit sub this = record this {
  descriptors = put key (record sub { limit = limit }) this.descriptors;
  wildcard_keys = if ends_with_star key then this.wildcard_keys ++ key ∷ [] else this.wildcard_keys;
}

-- config_impl.go, loadDescriptors: the limit that a descriptor gets; a missing unit is the zero value.
unfoldable pub yaml_limit : GoString → Bool → Bool → Option LimitUnit → YamlRateLimit → RateLimit
unfolding new_rate_limit
yaml_limit key shadow_mode detailed_metric value yaml =
    new_rate_limit yaml.requests_per_unit (or_zero value) (new_stats key) yaml.unlimited shadow_mode
      yaml.name (map (λ r. r.name) yaml.replaces) detailed_metric

-- `unit_value` is pb.RateLimitResponse_RateLimit_Unit_value, the generated table of unit names.
module _ (unit_value : GoString → Option LimitUnit) where
  -- config_impl.go, loadDescriptors: the limit of one descriptor
  unfoldable pub load_rate_limit :
      GoString → GoString → Bool → Bool → Option YamlRateLimit → Outcome (Option RateLimit)
  unfolding yaml_limit
  load_rate_limit file key shadow_mode detailed_metric none = returns none
  load_rate_limit file key shadow_mode detailed_metric (some yaml) =
      let value = unit_value (to_upper yaml.unit) in
      and_then (check_unit file yaml (is_valid_unit value)) λ _.
        and_then (check_replaces file yaml.name yaml.replaces)
          λ _. returns (some (yaml_limit key shadow_mode detailed_metric value yaml))

  -- config_impl.go, loadDescriptors
  unfoldable pub load_descriptors : GoString → GoString → YamlDescriptors → Node → Outcome Node
  unfolding load_rate_limit add_descriptor
  load_descriptors file parent no_items this = returns this
  load_descriptors file parent (item key value yaml descriptors shadow detailed rest) this =
      let final = final_key key value in
      let new_parent = parent ++ final in
      and_then
        (check (new_rate_limit_config_error file (text "descriptor has empty key"))
          (not (key == [])))
        λ _.
          and_then
            (check
              (new_rate_limit_config_error file
                (text "duplicate descriptor composite key '" ++ (new_parent ++ text "'")))
              (is_absent (find final this.descriptors)))
            λ _. and_then (load_rate_limit file new_parent shadow detailed yaml) λ limit.
              and_then (load_descriptors file (new_parent ++ text ".") descriptors empty_node)
                λ sub. load_descriptors file parent rest (add_descriptor final limit sub this)

  -- config_impl.go, loadConfig, for a domain that is not empty
  unfoldable pub load_domain : Bool → Dict Node → ConfigToLoad → Outcome (Dict Node)
  unfolding load_descriptors
  load_domain merge domains config =
      let root = config.config_yaml in
      elim (lookup root.domain domains) [
        | some old ↦
            if merge
            then (and_then
                (load_descriptors config.name (root.domain ++ text ".") root.descriptors old)
                λ new. returns (insert root.domain new domains))
            else panics (
                new_rate_limit_config_error config.name
                  (text "duplicate domain '" ++ (root.domain ++ text "' in config file")))
        | none ↦
            and_then
              (load_descriptors config.name (root.domain ++ text ".") root.descriptors empty_node)
              λ new. returns (insert root.domain new domains)
      ]

  -- config_impl.go, loadConfig
  unfoldable pub load_config : Bool → Dict Node → ConfigToLoad → Outcome (Dict Node)
  unfolding load_domain
  load_config merge domains config =
      and_then
        (check
          (new_rate_limit_config_error config.name (text "config file cannot have empty domain"))
          (not (config.config_yaml.domain == [])))
        λ _. load_domain merge domains config

  -- config_impl.go, NewRateLimitConfigImpl and Load: the loop over the files
  unfoldable pub load_configs : Bool → Dict Node → List ConfigToLoad → Outcome (Dict Node)
  unfolding load_config
  load_configs merge domains [] = returns domains
  load_configs merge domains (c ∷ cs) =
      and_then (load_config merge domains c) λ domains'. load_configs merge domains' cs

  unfoldable pub new_rate_limit_config_impl : Bool → List ConfigToLoad → Outcome (Dict Node)
  unfolding load_configs
  new_rate_limit_config_impl merge = load_configs merge []
