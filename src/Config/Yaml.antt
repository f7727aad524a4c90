-- ===== src/Config/Yaml.antt =====
-- src/config/config_impl.go: the parsed files.
use api_ratelimit.Common.{GoString, ℕ, Bool, Option, List}

-- config_impl.go, yamlReplaces
pub record YamlReplaces : Type 0 where
  pub name : GoString

-- config_impl.go, YamlRateLimit
pub record YamlRateLimit : Type 0 where
  pub requests_per_unit : ℕ
  pub unit : GoString
  pub unlimited : Bool
  pub name : GoString
  pub replaces : List YamlReplaces

-- config_impl.go, []YamlDescriptor: `item key value rate_limit descriptors shadow_mode
-- detailed_metric rest` is the slice that begins with that descriptor.
pub data YamlDescriptors : Type 0 where
  no_items : YamlDescriptors
  item :
      GoString
      → GoString
      → Option YamlRateLimit
      → YamlDescriptors
      → Bool
      → Bool
      → YamlDescriptors
      → YamlDescriptors

-- config_impl.go, YamlRoot
pub record YamlRoot : Type 0 where
  pub domain : GoString
  pub descriptors : YamlDescriptors

-- config.go, RateLimitConfigToLoad
pub record ConfigToLoad : Type 0 where
  pub name : GoString
  pub config_yaml : YamlRoot
