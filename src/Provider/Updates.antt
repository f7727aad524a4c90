-- ===== src/Provider/Updates.antt =====
-- src/provider/file_provider.go, watch, with the loop of the service over its events
-- (src/service/ratelimit.go, NewService).
use api_ratelimit.Service.Start.{install-config}
use api_ratelimit.Provider.Orderly.{is_orderly-loaded}
use api_ratelimit.Provider.{event_of, files_to_load, send_event, YamlLibrary}
use api_ratelimit.Service.Update.{
  set_config, serve_updates, ConfigUpdateEvent, new_config, load_error, Settings, Server,
}
use api_ratelimit.Config.Tree.{Node}
use api_ratelimit.Config.Load.{new_rate_limit_config_impl}
use api_ratelimit.Config.Errors.{is_orderly}
use api_ratelimit.Config.Lookup.{or_else}
use api_ratelimit.Common.{
  All, GoString, and_then, redis_error, service_error, config_error, memcache_error, other_error,
  Outcome, returns, panics, Dict, ◌≡◌, refl, sym, ap, ◌∙◌, Bool, true, Option, none, some, List, [],
  ◌∷◌, map,
}
use mathlib.Core.Path.{subst}
use api_ratelimit.Utils.{LimitUnit}

-- The files of a directory, each with its content.
abbrev pub Snapshot : Type 0
Snapshot = List (GoString × GoString)

module _ (unit_value : GoString → Option LimitUnit) (yaml : YamlLibrary) (watch_root : Bool)
    (directory : GoString) where
  -- file_provider.go, watch: the event for the files at the start, then one for each update
  unfoldable pub watch : Outcome Bool → Snapshot → List Snapshot → List ConfigUpdateEvent
  unfolding send_event
  watch merge first updates =
      send_event unit_value yaml watch_root directory merge first
      ∷ map (send_event unit_value yaml watch_root directory merge) updates

  -- The load of the files of a snapshot.
  abbrev load : Bool → Snapshot → Outcome (Dict Node)
  load merge snapshot =
      and_then (files_to_load yaml watch_root directory snapshot)
        λ cs. new_rate_limit_config_impl unit_value merge cs

-- The last value of a list that is there.
unfoldable pub last_some : {A : Type 0} → List (Option A) → Option A
last_some [] = none
last_some (x ∷ xs) = or_else (last_some xs) x

abbrev pub loaded_config : Outcome (Dict Node) → Option (Dict Node)
loaded_config (returns c) = some c
loaded_config (panics p) = none

pub or_else_assoc :
    {A : Type 0} (x y z : Option A) → or_else (or_else x y) z ≡ or_else x (or_else y z)
or_else_assoc (some a) y z = refl
or_else_assoc none y z = refl

module _ (settings : Settings) (healthy : Bool) where
  -- The service takes all the events without a panic and has this configuration then.
  abbrev pub EndsWith :
      {B : Type 0} → List ConfigUpdateEvent → Server B → Option (Dict Node) → Type 0
  EndsWith events s config =
      let served = serve_updates healthy (map (λ e. (returns settings, e)) events) s in
      (served.0 ≡ returns tt) × (served.1.service.config ≡ config)

  EndsWith-outcomes :
      {B : Type 0} (outcomes : List (Outcome (Dict Node))) (s : Server B)
      → All (λ o. is_orderly o ≡ true) outcomes
      → EndsWith
          (map event_of outcomes)
          s
          (last_some (s.service.config ∷ map loaded_config outcomes))
  unfolding serve_updates last_some set_config event_of
  EndsWith-outcomes [] s h = (refl, refl)
  EndsWith-outcomes (returns c ∷ os) s (o, h) =
      let counted = record s.service {
        calls = (s.service.stats.config_load_success, 1) ∷ s.service.calls;
      } in
      let (done, config) =
        EndsWith-outcomes os (set_config (returns settings) healthy (new_config c) s).1 h in
      (
        done,
        config
            ∙ ap (or_else (last_some (map loaded_config os)))
                (install-config (returns settings) c counted)
            ∙ sym (or_else_assoc (last_some (map loaded_config os)) (some c) s.service.config),
      )
  EndsWith-outcomes (panics (config_error e) ∷ os) s (o, h) =
      let (done, config) =
        EndsWith-outcomes os
          (set_config (returns settings) healthy (load_error (config_error e)) s).1 h in
      (done, config ∙ sym (or_else_assoc (last_some (map loaded_config os)) none s.service.config))
  EndsWith-outcomes (panics (redis_error e) ∷ os) s (o, h) = absurd (cc)
  EndsWith-outcomes (panics (service_error e) ∷ os) s (o, h) = absurd (cc)
  EndsWith-outcomes (panics (memcache_error e) ∷ os) s (o, h) = absurd (cc)
  EndsWith-outcomes (panics (other_error e) ∷ os) s (o, h) = absurd (cc)

  module _ (unit_value : GoString → Option LimitUnit) (yaml : YamlLibrary) (watch_root : Bool)
      (directory : GoString) (merge : Bool) where
    All-loads :
        (snapshots : List Snapshot)
        → All
            (λ (o : Outcome (Dict Node)). is_orderly o ≡ true)
            (map (load unit_value yaml watch_root directory merge) snapshots)
    All-loads [] = tt
    All-loads (x ∷ xs) =
        (is_orderly-loaded yaml watch_root directory unit_value merge x, All-loads xs)

    map-load :
        (snapshots : List Snapshot)
        → map (send_event unit_value yaml watch_root directory (returns merge)) snapshots
          ≡ map event_of (map (load unit_value yaml watch_root directory merge) snapshots)
    unfolding send_event
    map-load [] = refl
    map-load (x ∷ xs) =
        ap (λ es. send_event unit_value yaml watch_root directory (returns merge) x ∷ es)
          (map-load xs)

    -- Under one environment, in which every NewSettings returns, with the files at the start and those after each update: the service
    -- takes every event without a panic, and its configuration is then the one of the last of these
    -- sets of files that loads, or the earlier one where none of them loads.
    pub serve_updates-watch :
        {B : Type 0} (first : Snapshot) (updates : List Snapshot) (s : Server B)
        → EndsWith (watch unit_value yaml watch_root directory (returns merge) first updates) s (
            last_some (
              s.service.config
              ∷ map loaded_config
                  (map (load unit_value yaml watch_root directory merge) (first ∷ updates))))
    unfolding watch
    serve_updates-watch first updates s =
        subst
          (λ es. EndsWith es s (
            last_some (
              s.service.config
              ∷ map loaded_config
                  (map (load unit_value yaml watch_root directory merge) (first ∷ updates)))))
          (sym (map-load (first ∷ updates)))
          (EndsWith-outcomes
            (map (load unit_value yaml watch_root directory merge) (first ∷ updates)) s
            (All-loads (first ∷ updates)))
