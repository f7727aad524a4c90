-- ===== src/Provider/Orderly.antt =====
-- What a load of files panics with is always a RateLimitConfigError (src/provider/file_provider.go and
-- ConfigFileContentToYaml of src/config/config_impl.go).
use api_ratelimit.Utils.{LimitUnit}
use api_ratelimit.Common.{
  GoString, and_then, ◌≡◌, refl, ◌⊎◌, inl, inr, Bool, true, Option, List, [], ◌∷◌, arith,
}
use api_ratelimit.Config.Keys.{
  validate_yaml_keys, validate_value, validate_values, YamlValue, string_value, list_value,
  map_value, YamlValues, no_values, list_item, YamlPairs, no_pairs, pair,
}
use api_ratelimit.Config.Load.{new_rate_limit_config_error, new_rate_limit_config_impl}
use api_ratelimit.Config.Errors.{
  is_orderly, is_orderly-and_then, is_orderly-check, is_orderly-load_configs,
}
use api_ratelimit.Provider.{or_load_error, config_file_content_to_yaml, files_to_load, YamlLibrary}

mutual
  unfolding validate_yaml_keys new_rate_limit_config_error

  pairs-orderly : (file : GoString) (m : YamlPairs) → is_orderly (validate_yaml_keys file m) ≡ true
  pairs-orderly file no_pairs = refl
  pairs-orderly file (pair (string_value k) v rest) =
      let inner = value-orderly file v in
      let others = pairs-orderly file rest in
      search (is_orderly-and_then, is_orderly-check, inner, others)
  pairs-orderly file (pair _ v rest) = ground arith

  value-orderly : (file : GoString) (v : YamlValue) → is_orderly (validate_value file v) ≡ true
  value-orderly file (list_value vs) = values-orderly file vs
  value-orderly file (map_value m) = pairs-orderly file m
  value-orderly file _ = ground arith

  values-orderly : (file : GoString) (vs : YamlValues) → is_orderly (validate_values file vs) ≡ true
  values-orderly file no_values = refl
  values-orderly file (list_item (map_value m) vs) =
      let inner = pairs-orderly file m in
      let others = values-orderly file vs in search (is_orderly-and_then, inner, others)
  values-orderly file (list_item _ vs) = ground arith

is_orderly-or_load_error :
    {A : Type 0} (file : GoString) (a : A ⊎ GoString) → is_orderly (or_load_error file a) ≡ true
unfolding new_rate_limit_config_error
is_orderly-or_load_error file (inl a) = refl
is_orderly-or_load_error file (inr e) = refl

module _ (yaml : YamlLibrary) (watch_root : Bool) (directory : GoString) where
  is_orderly-config_file_content_to_yaml :
      (file content : GoString) → is_orderly (config_file_content_to_yaml yaml file content) ≡ true
  unfolding config_file_content_to_yaml
  is_orderly-config_file_content_to_yaml file content =
      search (is_orderly-and_then, is_orderly-or_load_error, pairs-orderly)

  pub is_orderly-files_to_load :
      (snapshot : List (GoString × GoString))
      → is_orderly (files_to_load yaml watch_root directory snapshot) ≡ true
  unfolding files_to_load
  is_orderly-files_to_load [] = refl
  is_orderly-files_to_load ((key, content) ∷ rest) =
      ground
        (arith, is_orderly-files_to_load rest, is_orderly-config_file_content_to_yaml key content)

  pub is_orderly-loaded :
      (unit_value : GoString → Option LimitUnit) (merge : Bool)
      (snapshot : List (GoString × GoString))
      → is_orderly (
          and_then
            (files_to_load yaml watch_root directory snapshot)
            λ cs. new_rate_limit_config_impl unit_value merge cs)
        ≡ true
  unfolding new_rate_limit_config_impl
  is_orderly-loaded unit_value merge snapshot =
      search (is_orderly-and_then, is_orderly-files_to_load, is_orderly-load_configs)
