-- ===== src/Examples/Configs.antt =====
-- Tests of the configuration and of the provider.
use api_ratelimit.Common.Strings.{has_prefix, trim_suffix, to_upper}
use api_ratelimit.Common.{
  GoString, text, ◌==◌, Panic, returns, Dict, insert, lookup, ℕ, ◌≡◌, refl, inl, inr, true, false,
  none, some, List, [], ◌∷◌,
}
use api_ratelimit.Config.Load.{
  new_rate_limit_config_error, final_key, ends_with_star, check_unit, check_replaces,
  add_descriptor, yaml_limit, load_rate_limit, load_descriptors, load_domain, load_config,
  load_configs, new_rate_limit_config_impl,
}
use api_ratelimit.Provider.{
  config_file_content_to_yaml, files_to_load, send_event, send_configs, YamlLibrary,
}
use api_ratelimit.Utils.{minute}
use api_ratelimit.Request.{Entry}
use api_ratelimit.Config.Limit.{RateLimit}
use api_ratelimit.Config.Yaml.{YamlDescriptors, no_items, item, ConfigToLoad}
use api_ratelimit.Config.Tree.{empty_node, find, put, has_children, leaf, child, Node}
use api_ratelimit.Config.Keys.{
  validate_yaml_keys, string_value, YamlPairs, no_pairs, pair, key_here,
}
use api_ratelimit.Config.Xds.{no_descriptors_pb, ConfigPb}
use api_ratelimit.Config.Lookup.{full_key, find_next, walk}
use api_ratelimit.Config.Wildcards.{Covers, load-find_next, root}
use api_ratelimit.Config.RoundTrip.{walk-load, Configured, here, below, IsFrom}
use api_ratelimit.Redis.FixedCache.{State}
use api_ratelimit.Server.Health.{new_health_checker}
use api_ratelimit.Service.Update.{set_config, Settings, Server}
use api_ratelimit.Provider.Forms.{resources_of, send_configs-send_event}
use api_ratelimit.Provider.Safety.{set_config-invalid_key}
use api_ratelimit.Provider.Updates.{watch, last_some, EndsWith, serve_updates-watch}
use api_ratelimit.Examples.{user_entry, unit_named, yaml_ten, items, service}

abbrev loaded_limit : RateLimit
loaded_limit = yaml_limit (text "web.path_a.user_ann") false false (some minute) yaml_ten

abbrev loaded_web : Node
loaded_web = record {
  descriptors =
      child (text "path_a") (child (text "user_ann") leaf (some loaded_limit) [] leaf) none [] leaf;
  limit = none;
  wildcard_keys = [];
}

load_items :
    load_descriptors unit_named (text "f") (text "web.") items empty_node ≡ returns loaded_web
unfolding load_descriptors load_rate_limit yaml_limit ◌==◌ find check_unit to_upper check_replaces
    put final_key
load_items = refl

abbrev path_and_user : List Entry
path_and_user = record { key = text "path"; value = text "a" } ∷ user_entry ∷ []

items-Configured :
    Configured (text "web.") items path_and_user (text "web.path_a.user_ann") yaml_ten false false
unfolding final_key
items-Configured = below (λ h. cc) (here (λ h. cc))

walk-load_example :
    (has_children loaded_web.descriptors ≡ true)
    × ((l : RateLimit) × ((walk path_and_user loaded_web (text "web")).found ≡ some l)
        × IsFrom unit_named (text "web.path_a.user_ann") yaml_ten false false l)
walk-load_example =
    walk-load unit_named (text "f") empty_node loaded_web (text "web") items-Configured load_items

-- A file with the key `domains`.
abbrev misspelt : YamlPairs
misspelt = pair (string_value (text "domains")) (string_value (text "web")) no_pairs

abbrev misread : YamlLibrary
misread = record {
  read_map = λ s. inl misspelt;
  read_root = λ s. inl (record { domain = text "web"; descriptors = items });
}

abbrev settings : Settings
settings = record {
  global_shadow_mode = false;
  response_headers_enabled = false;
  header_limit = [];
  header_remaining = [];
  header_reset = [];
}

abbrev server : Server (State (List GoString) (Dict ℕ))
server = record { service = service; health = new_health_checker true }

-- The empty text is no file, and every other one has a domain and nothing else.
abbrev reads_some : YamlLibrary
reads_some = record {
  read_map = λ s. elim s [
    | [] ↦ inr (text "EOF")
    | ◌∷◌ c cs ↦ inl (pair (string_value (text "domain")) (string_value (text "web")) no_pairs)
  ];
  read_root = λ s. inl (record { domain = text "web"; descriptors = no_items });
}

serve_updates-watch_example :
    EndsWith settings true
      (watch unit_named reads_some false []
        (returns false)
        ((text "f", text "x") ∷ [])
        (((text "f", []) ∷ []) ∷ []))
      server
      (some ((text "web", empty_node) ∷ []))
unfolding last_some files_to_load config_file_content_to_yaml validate_yaml_keys ◌==◌
    new_rate_limit_config_impl new_rate_limit_config_error load_configs load_config load_domain
    load_descriptors lookup insert
serve_updates-watch_example =
    serve_updates-watch settings true unit_named reads_some false [] false
      ((text "f", text "x") ∷ []) (((text "f", []) ∷ []) ∷ []) server

set_config-invalid_key_example :
    (set_config
      (returns settings)
      true
      (send_event unit_named misread false [] (returns false) ((text "f", text "x") ∷ []))
      server).1.service.config
    ≡ server.service.config
unfolding ◌==◌
set_config-invalid_key_example =
    set_config-invalid_key (returns settings) true unit_named misread false [] (returns false) [] []
      (text "f") (text "x") (text "domains") misspelt server refl refl key_here refl

-- A resource without a domain, which the load refuses.
abbrev nameless : ConfigPb
nameless = record { name = text "f"; domain = []; descriptors = no_descriptors_pb }

abbrev refused : Panic
refused = new_rate_limit_config_error (text "f") (text "config file cannot have empty domain")

-- A file whose keys are as they should be.
abbrev well_read : YamlLibrary
well_read = record {
  read_map = λ s. inl (pair (string_value (text "domain")) (string_value (text "web")) no_pairs);
  read_root = λ s. inl (record { domain = text "web"; descriptors = items });
}

abbrev from_file : ConfigToLoad
from_file = record {
  name = text "f";
  config_yaml = record { domain = text "web"; descriptors = items };
}

send_configs-send_event_example :
    (send_configs unit_named
      (λ n. text "minute")
      (λ (r : ConfigPb). inl r)
      (returns false)
      (resources_of
        (λ n. text "minute")
        (λ u. 2)
        unit_named
        (λ r. r)
        (λ (r : ConfigPb). inl r)
        (from_file ∷ []))).0
    ≡ some (send_event unit_named well_read false [] (returns false) ((text "f", text "x") ∷ []))
unfolding files_to_load validate_yaml_keys ◌==◌
send_configs-send_event_example =
    send_configs-send_event (λ n. text "minute") (λ u. 2) unit_named (λ r. r)
      (λ (r : ConfigPb). inl r) well_read false [] (returns false) ((text "f", text "x") ∷ [])
      (from_file ∷ []) refl (λ pb. refl) (((tt, ((refl, (tt, tt)), tt)), tt))

-- A file with a descriptor whose value ends with `*`.
abbrev wild_items : YamlDescriptors
wild_items = item (text "path") (text "a*") none no_items false false no_items

abbrev wild_node : Node
wild_node = record {
  descriptors = child (text "path_a*") leaf none [] leaf;
  limit = none;
  wildcard_keys = text "path_a*" ∷ [];
}

abbrev path_abc : Entry
path_abc = record { key = text "path"; value = text "abc" }

load-find_next_example :
    (v : GoString) × (c : Node) × (find_next path_abc wild_node ≡ some (v, c))
    × (find v wild_node.descriptors ≡ some c)
    × (ends_with_star v ≡ true)
    × Covers v (full_key path_abc)
unfolding load_descriptors load_rate_limit add_descriptor ends_with_star final_key find put
    has_prefix trim_suffix ◌==◌
load-find_next_example =
    load-find_next unit_named (text "f") (text "web.") wild_items wild_node wild_node path_abc
      (text "path_a*") empty_node refl root refl refl refl refl
