-- ===== src/Config/Xds.antt =====
-- src/config/config_xds.go: configurations of the xDS server, turned into the form of parsed files.
use api_ratelimit.Common.{GoString, ℕ, Bool, Option, none, some, List, [], ◌∷◌}
use api_ratelimit.Config.Yaml.{
  YamlReplaces, YamlRateLimit, YamlDescriptors, no_items, item, YamlRoot,
}

-- The protocol's RateLimitPolicy; `unit` is a number of the enumeration, named by `String`.
pub record PolicyPb : Type 0 where
  pub requests_per_unit : ℕ
  pub unit : ℕ
  pub unlimited : Bool
  pub name : GoString
  pub replaces : List GoString

-- []*RateLimitDescriptor of the protocol, as `YamlDescriptors`: key, value, policy, descriptors, shadow
-- mode, detailed metric, and the rest of the slice.
pub data DescriptorsPb : Type 0 where
  no_descriptors_pb : DescriptorsPb
  descriptor_pb :
      GoString
      → GoString
      → Option PolicyPb
      → DescriptorsPb
      → Bool
      → Bool
      → DescriptorsPb
      → DescriptorsPb

-- RateLimitConfig of the protocol
pub record ConfigPb : Type 0 where
  pub name : GoString
  pub domain : GoString
  pub descriptors : DescriptorsPb

-- config_xds.go, rateLimitReplacesPbToYaml
unfoldable pub replaces_pb_to_yaml : List GoString → List YamlReplaces
replaces_pb_to_yaml [] = []
replaces_pb_to_yaml (r ∷ rs) = record { name = r } ∷ replaces_pb_to_yaml rs

module _ (unit_string : ℕ → GoString) where
  -- config_xds.go, rateLimitPolicyPbToYaml
  unfoldable pub policy_pb_to_yaml : Option PolicyPb → Option YamlRateLimit
  unfolding replaces_pb_to_yaml
  policy_pb_to_yaml none = none
  policy_pb_to_yaml (some pb) = some (record {
    requests_per_unit = pb.requests_per_unit;
    unit = unit_string pb.unit;
    unlimited = pb.unlimited;
    name = pb.name;
    replaces = replaces_pb_to_yaml pb.replaces;
  })

  -- config_xds.go, rateLimitDescriptorsPbToYaml
  unfoldable pub descriptors_pb_to_yaml : DescriptorsPb → YamlDescriptors
  unfolding policy_pb_to_yaml
  descriptors_pb_to_yaml no_descriptors_pb = no_items
  descriptors_pb_to_yaml (descriptor_pb key value policy children shadow detailed rest) =
      item key value (policy_pb_to_yaml policy) (descriptors_pb_to_yaml children) shadow detailed
        (descriptors_pb_to_yaml rest)

  -- config_xds.go, ConfigXdsProtoToYaml
  unfoldable pub config_xds_proto_to_yaml : ConfigPb → YamlRoot
  unfolding descriptors_pb_to_yaml
  config_xds_proto_to_yaml pb = record {
    domain = pb.domain;
    descriptors = descriptors_pb_to_yaml pb.descriptors;
  }
