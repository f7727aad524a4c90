-- ===== src/Examples/Commands.antt =====
-- Tests of the check of configurations.
use api_ratelimit.Common.{GoString, text, ◌⊎◌, inl, List, [], ◌∷◌, map}
use api_ratelimit.Config.Keys.{string_value, no_pairs, pair}
use api_ratelimit.Provider.{YamlLibrary}
use api_ratelimit.ConfigCheck.{DirEntry}
use api_ratelimit.ConfigCheck.Agrees.{dir_entry, ConfigFile}
use api_ratelimit.Examples.{items}

-- One file, under the name in its directory and under its key.
abbrev web_file : ConfigFile
web_file = record { name = text "web.yaml"; key = text "config.web"; content = text "x" }

abbrev readable : YamlLibrary
readable = record {
  read_map = λ s. inl (pair (string_value (text "domain")) (string_value (text "web")) no_pairs);
  read_root = λ s. inl (record { domain = text "web"; descriptors = items });
}

abbrev directory_of : GoString → List DirEntry ⊎ GoString
directory_of name = inl (map dir_entry (web_file ∷ []))
