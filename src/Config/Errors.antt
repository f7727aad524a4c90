-- ===== src/Config/Errors.antt =====
-- What a load can end with (src/config/config_impl.go).
use api_ratelimit.Common.{
  if◌then◌else◌, Option-cases, GoString, text, ◌==◌, and_then, check, Panic, config_error, Outcome,
  returns, panics, Dict, insert, lookup, ◌≡◌, refl, inl, inr, Bool, true, false, not, Option, none,
  some, List, [], ◌∷◌, ◌++◌, arith,
}
use api_ratelimit.Config.Yaml.{
  YamlReplaces, YamlRateLimit, YamlDescriptors, no_items, item, ConfigToLoad,
}
use api_ratelimit.Config.Tree.{empty_node, Node}
use api_ratelimit.Config.Load.{
  new_rate_limit_config_error, check_unit, check_replaces, load_rate_limit, load_descriptors,
  load_domain, load_config, load_configs,
}
use api_ratelimit.Utils.{LimitUnit}

abbrev pub is_config_error : Panic → Bool
is_config_error (config_error e) = true
is_config_error _ = false

-- A result, or a panic with a RateLimitConfigError.
abbrev pub is_orderly {ℓ} : {A : Type ℓ} → Outcome A → Bool
is_orderly (returns a) = true
is_orderly (panics p) = is_config_error p

pub is_orderly-and_then {ℓ κ} :
    {A : Type ℓ} {B : Type κ} (m : Outcome A) (f : A → Outcome B)
    → is_orderly m ≡ true
    → ((a : A) → is_orderly (f a) ≡ true)
    → is_orderly (and_then m f) ≡ true
is_orderly-and_then (returns a) f h k = k a
is_orderly-and_then (panics p) f h k = h

pub is_orderly-check :
    (file e : GoString) (b : Bool)
    → is_orderly (check (new_rate_limit_config_error file e) b) ≡ true
unfolding new_rate_limit_config_error
is_orderly-check file e true = refl
is_orderly-check file e false = refl

is_orderly-check_unit :
    (file : GoString) (y : YamlRateLimit) (b : Bool) → is_orderly (check_unit file y b) ≡ true
unfolding check_unit new_rate_limit_config_error
is_orderly-check_unit file y b = ground arith

is_orderly-check_replaces :
    (file name : GoString) (rs : List YamlReplaces)
    → is_orderly (check_replaces file name rs) ≡ true
unfolding check_replaces
is_orderly-check_replaces file name [] = refl
is_orderly-check_replaces file name (r ∷ rs) =
    is_orderly-and_then (check _ (not (r.name == []))) _ (is_orderly-check file _ _) λ _.
      is_orderly-and_then (check _ (not (r.name == name))) _ (is_orderly-check file _ _)
        λ _. is_orderly-check_replaces file name rs

module _ (unit_value : GoString → Option LimitUnit) where
  is_orderly-load_rate_limit :
      (file key : GoString) (shadow detailed : Bool) (y : Option YamlRateLimit)
      → is_orderly (load_rate_limit unit_value file key shadow detailed y) ≡ true
  unfolding load_rate_limit
  is_orderly-load_rate_limit file key shadow detailed none = refl
  is_orderly-load_rate_limit file key shadow detailed (some y) =
      is_orderly-and_then (check_unit file y _) _ (is_orderly-check_unit file y _) λ _.
        is_orderly-and_then (check_replaces file y.name y.replaces) _
          (is_orderly-check_replaces file y.name y.replaces) λ _. refl

  is_orderly-load_descriptors :
      (file parent : GoString) (ds : YamlDescriptors) (this : Node)
      → is_orderly (load_descriptors unit_value file parent ds this) ≡ true
  unfolding load_descriptors
  is_orderly-load_descriptors file parent no_items this = refl
  is_orderly-load_descriptors file parent (item key value yaml ds shadow detailed rest) this =
      let sub : (p : GoString) (n : Node)
          → is_orderly (load_descriptors unit_value file p ds n) ≡ true =
        λ p n. is_orderly-load_descriptors file p ds n in
      let others : (n : Node) → is_orderly (load_descriptors unit_value file parent rest n) ≡ true =
        λ n. is_orderly-load_descriptors file parent rest n in
      search (is_orderly-and_then, is_orderly-check, is_orderly-load_rate_limit, sub, others)

  is_orderly-merged :
      (merge : Bool) (c : ConfigToLoad) (old : Node) (domains : Dict Node)
      → is_orderly (
          if merge
          then (and_then
              (load_descriptors unit_value c.name
                (c.config_yaml.domain ++ text ".")
                c.config_yaml.descriptors
                old)
              λ new. returns (insert c.config_yaml.domain new domains))
          else panics (
              new_rate_limit_config_error c.name
                (text "duplicate domain '" ++ (c.config_yaml.domain ++ text "' in config file"))))
        ≡ true
  unfolding new_rate_limit_config_error
  is_orderly-merged true c old domains =
      is_orderly-and_then (load_descriptors unit_value c.name _ c.config_yaml.descriptors old) _
        (is_orderly-load_descriptors c.name _ c.config_yaml.descriptors old) λ new. refl
  is_orderly-merged false c old domains = refl

  is_orderly-load_domain :
      (merge : Bool) (domains : Dict Node) (c : ConfigToLoad)
      → is_orderly (load_domain unit_value merge domains c) ≡ true
  unfolding load_domain new_rate_limit_config_error
  is_orderly-load_domain merge domains c =
      elim (Option-cases (lookup c.config_yaml.domain domains)) [
        | inl e ↦
            rw (e, load_domain)
              (is_orderly-and_then
                (load_descriptors unit_value c.name _ c.config_yaml.descriptors empty_node) _
                (is_orderly-load_descriptors c.name _ c.config_yaml.descriptors empty_node)
                λ new. refl)
        | inr (old, e) ↦ rw (e, load_domain) (is_orderly-merged merge c old domains)
      ]

  -- A load of files ends with a configuration or with a RateLimitConfigError, and with no other panic.
  pub is_orderly-load_configs :
      (merge : Bool) (domains : Dict Node) (cs : List ConfigToLoad)
      → is_orderly (load_configs unit_value merge domains cs) ≡ true
  unfolding load_configs load_config
  is_orderly-load_configs merge domains [] = refl
  is_orderly-load_configs merge domains (c ∷ cs) =
      is_orderly-and_then (load_config unit_value merge domains c) _
        (is_orderly-and_then (check _ _) _ (is_orderly-check c.name _ _)
          λ _. is_orderly-load_domain merge domains c)
        λ domains'. is_orderly-load_configs merge domains' cs
