-- ===== src/Config/Renamed.antt =====
-- The names of the files stand only in the errors of a load (src/config/config_impl.go).
use api_ratelimit.Common.{
  Bool-cases, Option-cases, GoString, text, ◌==◌, and_then, check, Panic, Outcome, returns, panics,
  Dict, insert, lookup, ◌≡◌, refl, sym, inl, inr, Bool, true, false, not, Option, none, some, List,
  [], ◌∷◌, ◌++◌, map,
}
use api_ratelimit.Config.Keys.{
  is_valid_key, validate_yaml_keys, validate_value, validate_values, YamlValue, string_value,
  int_value, bool_value, nil_value, list_value, map_value, other_value, YamlValues, no_values,
  list_item, YamlPairs, no_pairs, pair,
}
use api_ratelimit.Utils.{LimitUnit}
use api_ratelimit.Config.Yaml.{
  YamlReplaces, YamlRateLimit, YamlDescriptors, no_items, item, YamlRoot, ConfigToLoad,
}
use api_ratelimit.Config.Tree.{empty_node, find, Node}
use api_ratelimit.Config.Load.{
  final_key, check_unit, check_replaces, is_absent, load_rate_limit, load_descriptors, load_domain,
  load_config, load_configs,
}

-- Two results that are equal, or two panics, with any texts.
abbrev pub Same : {A : Type 0} → Outcome A → Outcome A → Type 0
Same (returns a) (returns b) = a ≡ b
Same (returns a) (panics q) = ⊥
Same (panics p) (returns b) = ⊥
Same (panics p) (panics q) = Unit

module _ {A B : Type 0} where
  pub Same-and_then :
      (m m' : Outcome A) (f f' : A → Outcome B)
      → Same m m'
      → ((a : A) → Same (f a) (f' a))
      → Same (and_then m f) (and_then m' f')
  Same-and_then (returns a) (returns b) f f' h k = rw (sym h) (k a)
  Same-and_then (returns a) (panics q) f f' h k = absurd h
  Same-and_then (panics p) (returns b) f f' h k = absurd h
  Same-and_then (panics p) (panics q) f f' h k = tt

pub Same-check : (p q : Panic) (b : Bool) → Same (check p b) (check q b)
Same-check p q true = refl
Same-check p q false = tt

Same-check_unit :
    (file file' : GoString) (y : YamlRateLimit) (b : Bool)
    → Same (check_unit file y b) (check_unit file' y b)
unfolding check_unit
Same-check_unit file file' y b = elim (Bool-cases y.unlimited) [
  | inl e ↦ rw e (Same-check _ _ (not b))
  | inr e ↦ rw e (Same-check _ _ b)
]

Same-check_replaces :
    (file file' name : GoString) (rs : List YamlReplaces)
    → Same (check_replaces file name rs) (check_replaces file' name rs)
unfolding check_replaces
Same-check_replaces file file' name [] = refl
Same-check_replaces file file' name (r ∷ rs) =
    Same-and_then (check _ (not (r.name == []))) (check _ (not (r.name == []))) _ _
      (Same-check _ _ (not (r.name == [])))
      λ _.
        Same-and_then (check _ (not (r.name == name))) (check _ (not (r.name == name))) _ _
          (Same-check _ _ (not (r.name == name))) λ _. Same-check_replaces file file' name rs

module _ (unit_value : GoString → Option LimitUnit) (file file' : GoString) where
  Same-load_rate_limit :
      (key : GoString) (shadow detailed : Bool) (y : Option YamlRateLimit)
      → Same
          (load_rate_limit unit_value file key shadow detailed y)
          (load_rate_limit unit_value file' key shadow detailed y)
  unfolding load_rate_limit
  Same-load_rate_limit key shadow detailed none = refl
  Same-load_rate_limit key shadow detailed (some y) =
      Same-and_then (check_unit file y _) (check_unit file' y _) _ _
        (Same-check_unit file file' y _)
        λ _.
          Same-and_then (check_replaces file y.name y.replaces)
            (check_replaces file' y.name y.replaces) _ _
            (Same-check_replaces file file' y.name y.replaces) λ _. refl

  pub Same-load_descriptors :
      (parent : GoString) (ds : YamlDescriptors) (this : Node)
      → Same
          (load_descriptors unit_value file parent ds this)
          (load_descriptors unit_value file' parent ds this)
  unfolding load_descriptors
  Same-load_descriptors parent no_items this = refl
  Same-load_descriptors parent (item key value y ds shadow detailed rest) this =
      Same-and_then (check _ (not (key == []))) (check _ (not (key == []))) _ _
        (Same-check _ _ (not (key == [])))
        λ _.
          Same-and_then (check _ (is_absent (find (final_key key value) this.descriptors)))
            (check _ (is_absent (find (final_key key value) this.descriptors))) _ _
            (Same-check _ _ (is_absent (find (final_key key value) this.descriptors)))
            λ _.
              Same-and_then (load_rate_limit unit_value file _ shadow detailed y)
                (load_rate_limit unit_value file' _ shadow detailed y) _ _
                (Same-load_rate_limit _ shadow detailed y)
                λ limit.
                  Same-and_then (load_descriptors unit_value file _ ds empty_node)
                    (load_descriptors unit_value file' _ ds empty_node) _ _
                    (Same-load_descriptors ((parent ++ final_key key value) ++ text ".") ds
                      empty_node)
                    λ sub. Same-load_descriptors parent rest _

  Same-inserted :
      (domain : GoString) (domains : Dict Node) (ds : YamlDescriptors) (this : Node)
      → Same
          (and_then
            (load_descriptors unit_value file (domain ++ text ".") ds this)
            λ new. returns (insert domain new domains))
          (and_then
            (load_descriptors unit_value file' (domain ++ text ".") ds this)
            λ new. returns (insert domain new domains))
  Same-inserted domain domains ds this =
      Same-and_then (load_descriptors unit_value file (domain ++ text ".") ds this)
        (load_descriptors unit_value file' (domain ++ text ".") ds this) _ _
        (Same-load_descriptors (domain ++ text ".") ds this) λ new. refl

  Same-load_domain :
      (merge : Bool) (domains : Dict Node) (root : YamlRoot)
      → Same
          (load_domain unit_value merge domains (record { name = file; config_yaml = root }))
          (load_domain unit_value merge domains (record { name = file'; config_yaml = root }))
  unfolding load_domain
  Same-load_domain merge domains root = elim (Option-cases (lookup root.domain domains)) [
    | inl e ↦ rw (e, load_domain) (Same-inserted root.domain domains root.descriptors empty_node)
    | inr (old, e) ↦ elim (Bool-cases merge) [
      | inl m ↦ rw (e, load_domain, m) (Same-inserted root.domain domains root.descriptors old)
      | inr m ↦ rw (e, load_domain, m) tt
    ]
  ]

  Same-load_config :
      (merge : Bool) (domains : Dict Node) (root : YamlRoot)
      → Same
          (load_config unit_value merge domains (record { name = file; config_yaml = root }))
          (load_config unit_value merge domains (record { name = file'; config_yaml = root }))
  unfolding load_config
  Same-load_config merge domains root =
      Same-and_then (check _ (not (root.domain == []))) (check _ (not (root.domain == []))) _ _
        (Same-check _ _ (not (root.domain == []))) λ _. Same-load_domain merge domains root

-- A file under two names, as it is read.
abbrev pub Renamed : Type 0
Renamed = GoString × GoString × YamlRoot

abbrev pub named_file : Renamed → ConfigToLoad
named_file (name, key, root) = record { name = name; config_yaml = root }

abbrev pub keyed_file : Renamed → ConfigToLoad
keyed_file (name, key, root) = record { name = key; config_yaml = root }

pub Same-load_configs :
    (unit_value : GoString → Option LimitUnit) (merge : Bool) (domains : Dict Node)
    (fs : List Renamed)
    → Same
        (load_configs unit_value merge domains (map named_file fs))
        (load_configs unit_value merge domains (map keyed_file fs))
unfolding load_configs
Same-load_configs unit_value merge domains [] = refl
Same-load_configs unit_value merge domains ((name, key, root) ∷ fs) =
    Same-and_then
      (load_config unit_value merge domains (record { name = name; config_yaml = root }))
      (load_config unit_value merge domains (record { name = key; config_yaml = root })) _ _
      (Same-load_config unit_value name key merge domains root)
      λ new. Same-load_configs unit_value merge new fs

mutual
  unfolding validate_yaml_keys

  pub Same-validate_yaml_keys :
      (file file' : GoString) (m : YamlPairs)
      → Same (validate_yaml_keys file m) (validate_yaml_keys file' m)
  Same-validate_yaml_keys file file' no_pairs = refl
  Same-validate_yaml_keys file file' (pair (string_value k) v rest) =
      Same-and_then (check _ (is_valid_key k)) (check _ (is_valid_key k)) _ _
        (Same-check _ _ (is_valid_key k))
        λ _.
          Same-and_then (validate_value file v) (validate_value file' v) _ _
            (Same-validate_value file file' v) λ _. Same-validate_yaml_keys file file' rest
  Same-validate_yaml_keys file file' (pair (int_value n) v rest) = tt
  Same-validate_yaml_keys file file' (pair (bool_value b) v rest) = tt
  Same-validate_yaml_keys file file' (pair nil_value v rest) = tt
  Same-validate_yaml_keys file file' (pair (list_value l) v rest) = tt
  Same-validate_yaml_keys file file' (pair (map_value m) v rest) = tt
  Same-validate_yaml_keys file file' (pair other_value v rest) = tt

  Same-validate_value :
      (file file' : GoString) (v : YamlValue)
      → Same (validate_value file v) (validate_value file' v)
  Same-validate_value file file' (list_value vs) = Same-validate_values file file' vs
  Same-validate_value file file' (map_value m) = Same-validate_yaml_keys file file' m
  Same-validate_value file file' other_value = tt
  Same-validate_value file file' (string_value s) = refl
  Same-validate_value file file' (int_value n) = refl
  Same-validate_value file file' (bool_value b) = refl
  Same-validate_value file file' nil_value = refl

  Same-validate_values :
      (file file' : GoString) (vs : YamlValues)
      → Same (validate_values file vs) (validate_values file' vs)
  Same-validate_values file file' no_values = refl
  Same-validate_values file file' (list_item (map_value m) vs) =
      Same-and_then (validate_yaml_keys file m) (validate_yaml_keys file' m) _ _
        (Same-validate_yaml_keys file file' m) λ _. Same-validate_values file file' vs
  Same-validate_values file file' (list_item (string_value s) vs) = tt
  Same-validate_values file file' (list_item (int_value n) vs) = tt
  Same-validate_values file file' (list_item (bool_value b) vs) = tt
  Same-validate_values file file' (list_item nil_value vs) = tt
  Same-validate_values file file' (list_item (list_value l) vs) = tt
  Same-validate_values file file' (list_item other_value vs) = tt
