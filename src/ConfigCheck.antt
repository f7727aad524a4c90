-- ===== src/ConfigCheck.antt =====
-- src/config_check_cmd/main.go: the command that checks a directory of configurations. The directory, its
-- files and filepath.Join are parameters, and so is the YAML library; the texts that are printed are
-- left out. The settings that loadConfigs reads are taken to be readable.
pub mod Agrees
use api_ratelimit.Common.{
  GoString, Panic, other_error, Outcome, returns, panics, Dict, ℕ, ◌⊎◌, inl, inr, Bool, Option,
  List, [], ◌∷◌,
}
use api_ratelimit.Utils.{LimitUnit}
use api_ratelimit.Config.Yaml.{ConfigToLoad}
use api_ratelimit.Config.Tree.{Node}
use api_ratelimit.Config.Load.{new_rate_limit_config_impl}
use api_ratelimit.Provider.{config_file_content_to_yaml, YamlLibrary}

-- How the process ends: with an exit code, or with a panic that nothing recovers.
pub data End : Type 0 where
  exits : ℕ → End
  crashes : Panic → End

-- An entry of the directory, with what os.ReadFile gives: the content, or the text of an error.
pub record DirEntry : Type 0 where
  pub name : GoString
  pub content : GoString ⊎ GoString

-- A step that ends the process, or goes on.
abbrev pub or_end : {A B : Type 0} → End ⊎ A → (A → End ⊎ B) → End ⊎ B
or_end (inl e) f = inl e
or_end (inr a) f = f a

abbrev pub read_file : GoString ⊎ GoString → End ⊎ GoString
read_file (inl content) = inr content
read_file (inr e) = inl (exits 1)

-- A panic in main, where nothing recovers.
abbrev pub in_main : {A : Type 0} → Outcome A → End ⊎ A
in_main (returns a) = inr a
in_main (panics p) = inl (crashes p)

-- loadConfigs: the deferred function, whose type assertion fails on a value that is no error
unfoldable pub recover_load : Outcome (Dict Node) → End
recover_load (returns c) = exits 0
recover_load (panics (other_error e)) = crashes (other_error e)
recover_load (panics p) = exits 1

abbrev pub end_of : {A : Type 0} → (A → End) → End ⊎ A → End
end_of f (inl e) = e
end_of f (inr a) = f a

module _ (unit_value : GoString → Option LimitUnit) (yaml : YamlLibrary)
    (join_path : GoString → GoString → GoString) where
  -- main: the loop over the files
  unfoldable pub read_configs : GoString → List DirEntry → End ⊎ List ConfigToLoad
  unfolding config_file_content_to_yaml
  read_configs directory [] = inr []
  read_configs directory (file ∷ files) =
      let final_path = join_path directory file.name in
      or_end (read_file file.content) λ content.
        or_end (in_main (config_file_content_to_yaml yaml final_path content)) λ root.
          or_end (read_configs directory files)
            λ all_configs. inr (record { name = final_path; config_yaml = root } ∷ all_configs)

  -- main.go, loadConfigs; where it returns, main returns too.
  unfoldable pub load_all_configs : Bool → List ConfigToLoad → End
  unfolding recover_load new_rate_limit_config_impl
  load_all_configs merge_domain_configs all_configs =
      recover_load (new_rate_limit_config_impl unit_value merge_domain_configs all_configs)

  abbrev pub check_files : GoString → Bool → List DirEntry ⊎ GoString → End
  check_files directory merge (inl files) =
      end_of (load_all_configs merge) (read_configs directory files)
  check_files directory merge (inr e) = exits 1

  -- main.go, main, given os.ReadDir
  unfoldable pub config_check : (GoString → List DirEntry ⊎ GoString) → GoString → Bool → End
  unfolding read_configs load_all_configs
  config_check read_dir config_directory merge_domain_configs =
      check_files config_directory merge_domain_configs (read_dir config_directory)
