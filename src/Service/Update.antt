-- ===== src/Service/Update.antt =====
-- src/service/ratelimit.go, SetConfig, and the event of src/provider/provider.go.
use api_ratelimit.Common.{
  if◌then◌else◌, GoString, Go, pure, ◌>>◌, Panic, config_error, Outcome, returns, panics, Dict,
  Bool, true, not, some, List, [], ◌∷◌,
}
use api_ratelimit.Config.Tree.{Node}
use api_ratelimit.Config.Lookup.{is_empty_domains}
use api_ratelimit.Server.Health.{config_component, fail, set_ok, HealthChecker}
use api_ratelimit.Service.Worker.{Service}

-- provider.go, ConfigUpdateEvent: a configuration, or what the load panicked with.
pub data ConfigUpdateEvent : Type 0 where
  new_config : Dict Node → ConfigUpdateEvent
  load_error : Panic → ConfigUpdateEvent

-- settings.NewSettings(), as far as SetConfig reads it: the environment at the call. It may panic.
pub record Settings : Type 0 where
  pub global_shadow_mode : Bool
  pub response_headers_enabled : Bool
  pub header_limit : GoString
  pub header_remaining : GoString
  pub header_reset : GoString

-- The service with the health checker that it reports to.
pub record Server (B : Type 0) : Type 0 where
  pub service : Service B
  pub health : HealthChecker

-- SetConfig: the report to the health checker; its error is only logged
unfoldable pub report_config : Bool → Dict Node → HealthChecker → HealthChecker
unfolding set_ok fail is_empty_domains
report_config healthy_with_at_least_one_config_load domains health =
    if healthy_with_at_least_one_config_load
    then (if not (is_empty_domains domains)
        then (set_ok config_component health).1
        else (fail config_component health).1)
    else health

module _ {B : Type 0} where
  -- SetConfig: what the settings change under the lock
  unfoldable pub apply_settings : Settings → Service B → Service B
  apply_settings settings s =
      let s' = record s { global_shadow_mode = settings.global_shadow_mode } in
      if settings.response_headers_enabled
      then record s' {
        headers = record {
          enabled = true;
          limit_header = settings.header_limit;
          remaining_header = settings.header_remaining;
          reset_header = settings.header_reset;
        };
      }
      else s'

  -- SetConfig: what is done under the lock. NewSettings may panic, after the configuration is set.
  unfoldable pub install : Outcome Settings → Dict Node → Go (Service B) (Unit {0})
  unfolding apply_settings
  install (returns settings) domains s =
      (returns tt, apply_settings settings (record s { config = some domains }))
  install (panics p) domains s = (panics p, record s { config = some domains })

  -- ratelimit.go, SetConfig
  unfoldable pub set_config : Outcome Settings → Bool → ConfigUpdateEvent → Go (Server B) (Unit {0})
  unfolding report_config install
  set_config settings healthy (load_error (config_error e)) s =
      let c = s.service.stats.config_load_error in
      (returns tt, record s { service = record s.service { calls = (c, 1) ∷ s.service.calls } })
  set_config settings healthy (load_error p) s = (panics p, s)
  set_config settings healthy (new_config domains) s =
      let c = s.service.stats.config_load_success in
      let counted = record s.service { calls = (c, 1) ∷ s.service.calls } in
      let (r, installed) = install settings domains counted in
      (r, record { service = installed; health = report_config healthy domains s.health })

  -- NewService: the loop over the events that arrive, each with the environment that the call reads
  unfoldable pub serve_updates :
      Bool → List (Outcome Settings × ConfigUpdateEvent) → Go (Server B) (Unit {0})
  unfolding set_config
  serve_updates healthy [] = pure tt
  serve_updates healthy ((settings, e) ∷ es) = do
    set_config settings healthy e
    serve_updates healthy es
