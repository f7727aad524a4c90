-- ===== src/ConfigCheck/Agrees.antt =====
-- The command accepts what the service loads (src/config_check_cmd/main.go, src/provider/file_provider.go).
use api_ratelimit.Service.Update.{new_config}
use api_ratelimit.Config.Load.{new_rate_limit_config_impl}
use api_ratelimit.Config.Tree.{Node}
use api_ratelimit.Common.Strings.{has_prefix}
use api_ratelimit.Common.{
  GoString, text, and_then, Panic, Outcome, returns, panics, Dict, ◌≡◌, ◌↔◌, ◌⊎◌, inl, inr, Bool,
  false, not, ◌&&◌, Option, List, ◌++◌, map,
}
use api_ratelimit.Utils.{LimitUnit}
use api_ratelimit.Config.Yaml.{ConfigToLoad}
use api_ratelimit.Config.Renamed.{Renamed, named_file, keyed_file}
use api_ratelimit.Provider.{event_of, YamlLibrary}
use api_ratelimit.ConfigCheck.{end_of, load_all_configs, End, exits, crashes, DirEntry}

-- A file as the directory and as the snapshot of the file provider have it.
pub record ConfigFile : Type 0 where
  pub name : GoString
  pub key : GoString
  pub content : GoString

abbrev pub dir_entry : ConfigFile → DirEntry
dir_entry f = record { name = f.name; content = inl f.content }

abbrev pub snapshot_entry : ConfigFile → GoString × GoString
snapshot_entry f = (f.key, f.content)

-- The file provider does not skip the file.
abbrev pub IsWatched : Bool → GoString → ConfigFile → Type 0
IsWatched watch_root app f = watch_root && not (has_prefix f.key (app ++ text ".")) ≡ false

-- The two loops end alike: with the same files under their two names, or with a panic each.
data Alike : End ⊎ List ConfigToLoad → Outcome (List ConfigToLoad) → Type 0 where
  both_read : (fs : List Renamed) → Alike (inr (map named_file fs)) (returns (map keyed_file fs))
  both_panic : (p q : Panic) → Alike (inl (crashes p)) (panics q)

module _ (unit_value : GoString → Option LimitUnit) (yaml : YamlLibrary)
    (join_path : GoString → GoString → GoString) (merge : Bool) where
  -- What the two programs make of their loops.
  abbrev Agree : End ⊎ List ConfigToLoad → Outcome (List ConfigToLoad) → Type 0
  Agree m n =
      ((end_of (load_all_configs unit_value yaml join_path merge) m ≡ exits 0) ↔ (
        (c : Dict Node) × (event_of
            (and_then n λ cs. new_rate_limit_config_impl unit_value merge cs)
          ≡ new_config c)))
      × (((p : Panic) × (end_of (load_all_configs unit_value yaml join_path merge) m ≡ crashes p))
          ↔ ((q : Panic) × (n ≡ panics q)))
