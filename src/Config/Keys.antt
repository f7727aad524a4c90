-- ===== src/Config/Keys.antt =====
-- src/config/config_impl.go, validKeys and validateYamlKeys: the keys of a file are checked before it
-- is read into its structure. A map is ranged over in the order that the model is given.
use api_ratelimit.Common.{
  any, GoString, text, ◌==◌, and_then, check, check-returns, Panic, Outcome, returns, panics, ℕ,
  ◌≡◌, refl, Bool, true, List, [], ◌∷◌, ◌++◌, arith,
}
use api_ratelimit.Config.Load.{new_rate_limit_config_error}

-- What the YAML library reads a file into: the kinds that the switch names, and all others.
mutual
  pub data YamlValue : Type 0 where
    string_value : GoString → YamlValue
    int_value : ℕ → YamlValue
    bool_value : Bool → YamlValue
    nil_value : YamlValue
    list_value : YamlValues → YamlValue
    map_value : YamlPairs → YamlValue
    other_value : YamlValue

  pub data YamlValues : Type 0 where
    no_values : YamlValues
    list_item : YamlValue → YamlValues → YamlValues

  -- A map: a key, its value, and the rest.
  pub data YamlPairs : Type 0 where
    no_pairs : YamlPairs
    pair : YamlValue → YamlValue → YamlPairs → YamlPairs

-- config_impl.go, validKeys
abbrev pub valid_keys : List GoString
valid_keys =
    text "domain"
    ∷ text "key"
    ∷ text "value"
    ∷ text "descriptors"
    ∷ text "rate_limit"
    ∷ text "unit"
    ∷ text "requests_per_unit"
    ∷ text "unlimited"
    ∷ text "shadow_mode"
    ∷ text "name"
    ∷ text "replaces"
    ∷ text "detailed_metric"
    ∷ []

abbrev pub is_valid_key : GoString → Bool
is_valid_key k = any (λ j. j == k) valid_keys

-- The texts name the value that is found, which the model leaves out.
abbrev pub keys_error : GoString → GoString → Panic
keys_error file err = new_rate_limit_config_error file err

unfoldable mutual
  -- config_impl.go, validateYamlKeys
  pub validate_yaml_keys : GoString → YamlPairs → Outcome (Unit {0})
  validate_yaml_keys file no_pairs = returns tt
  validate_yaml_keys file (pair (string_value k) v rest) =
      and_then
        (check (keys_error file (text "config error, unknown key '" ++ (k ++ text "'")))
          (is_valid_key k))
        λ _. and_then (validate_value file v) λ _. validate_yaml_keys file rest
  validate_yaml_keys file (pair k v rest) =
      panics (keys_error file (text "config error, key is not of type string"))

  -- config_impl.go, validateYamlKeys: the switch
  pub validate_value : GoString → YamlValue → Outcome (Unit {0})
  validate_value file (list_value vs) = validate_values file vs
  validate_value file (map_value m) = validate_yaml_keys file m
  validate_value file other_value = panics (keys_error file (text "error checking config"))
  validate_value file v = returns tt

  -- config_impl.go, validateYamlKeys: the loop over a list
  pub validate_values : GoString → YamlValues → Outcome (Unit {0})
  validate_values file no_values = returns tt
  validate_values file (list_item (map_value m) vs) =
      and_then (validate_yaml_keys file m) λ _. validate_values file vs
  validate_values file (list_item v vs) =
      panics (keys_error file (text "config error, yaml file contains list of type other than map"))

-- A key that stands anywhere in a file.
mutual
  pub data InPairs (k : GoString) : YamlPairs → Type 0 where
    key_here : {v : YamlValue} {rest : YamlPairs} → InPairs k (pair (string_value k) v rest)
    inside : {j v : YamlValue} {rest : YamlPairs} → InValue k v → InPairs k (pair j v rest)
    key_later : {j v : YamlValue} {rest : YamlPairs} → InPairs k rest → InPairs k (pair j v rest)

  pub data InValue (k : GoString) : YamlValue → Type 0 where
    in_list : {vs : YamlValues} → InValues k vs → InValue k (list_value vs)
    in_map : {m : YamlPairs} → InPairs k m → InValue k (map_value m)

  pub data InValues (k : GoString) : YamlValues → Type 0 where
    first : {v : YamlValue} {vs : YamlValues} → InValue k v → InValues k (list_item v vs)
    next : {v : YamlValue} {vs : YamlValues} → InValues k vs → InValues k (list_item v vs)

both-return :
    (a b : Outcome (Unit {0}))
    → and_then a (λ _. b) ≡ returns tt
    → (a ≡ returns tt) × (b ≡ returns tt)
both-return (returns x) b h = (refl, h)
both-return (panics p) b h = cc

mutual
  unfolding validate_yaml_keys

  pairs-valid :
      (file k : GoString) (m : YamlPairs)
      → validate_yaml_keys file m ≡ returns tt
      → InPairs k m
      → is_valid_key k ≡ true
  pairs-valid file k (pair (string_value _) v rest) h key_here =
      check-returns _ _
        (both-return (check _ (is_valid_key k))
          (and_then (validate_value file v) λ _. validate_yaml_keys file rest) h).0
  pairs-valid file k (pair (string_value j) v rest) h (inside p) =
      let (_, h₁) =
        both-return (check _ (is_valid_key j))
          (and_then (validate_value file v) λ _. validate_yaml_keys file rest) h in
      validate_value-valid file k v
        (both-return (validate_value file v) (validate_yaml_keys file rest) h₁).0 p
  pairs-valid file k (pair (string_value j) v rest) h (key_later p) =
      let (_, h₁) =
        both-return (check _ (is_valid_key j))
          (and_then (validate_value file v) λ _. validate_yaml_keys file rest) h in
      pairs-valid file k rest
        (both-return (validate_value file v) (validate_yaml_keys file rest) h₁).1 p
  pairs-valid file k no_pairs h p = elim p [ ]
  pairs-valid file k (pair _ v rest) h p = absurd (ground (arith, h))

  validate_value-valid :
      (file k : GoString) (v : YamlValue)
      → validate_value file v ≡ returns tt
      → InValue k v
      → is_valid_key k ≡ true
  validate_value-valid file k (list_value vs) h (in_list p) = validate_values-valid file k vs h p
  validate_value-valid file k (map_value m) h (in_map p) = pairs-valid file k m h p
  validate_value-valid file k (string_value _) h p = elim p [ ]
  validate_value-valid file k (int_value _) h p = elim p [ ]
  validate_value-valid file k (bool_value _) h p = elim p [ ]
  validate_value-valid file k nil_value h p = elim p [ ]
  validate_value-valid file k other_value h p = elim p [ ]

  validate_values-valid :
      (file k : GoString) (vs : YamlValues)
      → validate_values file vs ≡ returns tt
      → InValues k vs
      → is_valid_key k ≡ true
  validate_values-valid file k (list_item (map_value m) vs) h (first (in_map p)) =
      pairs-valid file k m (both-return (validate_yaml_keys file m) (validate_values file vs) h).0 p
  validate_values-valid file k (list_item (map_value m) vs) h (next p) =
      validate_values-valid file k vs
        (both-return (validate_yaml_keys file m) (validate_values file vs) h).1 p
  validate_values-valid file k no_values h p = elim p [ ]
  validate_values-valid file k (list_item _ vs) h p = absurd (ground (arith, h))

-- Where the check of a file ends without a panic, every key that is a string, at any depth, is a
-- valid key.
pub validate_yaml_keys-valid :
    (file k : GoString) (m : YamlPairs)
    → validate_yaml_keys file m ≡ returns tt
    → InPairs k m
    → is_valid_key k ≡ true
validate_yaml_keys-valid = pairs-valid
