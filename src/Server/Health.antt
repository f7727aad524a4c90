-- ===== src/Server/Health.antt =====
-- src/server/health.go. Each call holds the lock, so calls are steps; the library's health service
-- is the status that was last set.
pub mod Invariant
use api_ratelimit.Common.{
  if◌then◌else◌, GoString, text, Dict, insert, lookup, ℕ, Bool, true, false, ◌&&◌, Option, none,
  some, [], ◌∷◌, ◌++◌,
}

-- health.go, HealthChecker: `ok` is the flag that the HTTP handler reads, `serving` the status of
-- the gRPC health service.
pub record HealthChecker : Type 0 where
  pub health_map : Dict Bool
  pub ok : Bool
  pub serving : Bool

abbrev pub config_component : GoString
config_component = text "config"

abbrev pub redis_component : GoString
redis_component = text "redis"

abbrev pub sigterm_component : GoString
sigterm_component = text "sigterm"

-- health.go, areAllComponentsHealthy
unfoldable pub are_all_components_healthy : Dict Bool → Bool
are_all_components_healthy [] = true
are_all_components_healthy ((k, v) ∷ m) = v && are_all_components_healthy m

-- health.go, NewHealthChecker
unfoldable pub new_health_checker : Bool → HealthChecker
unfolding are_all_components_healthy
new_health_checker healthy_with_at_least_one_config_load =
    let m₀ = insert redis_component true [] in
    let m₁ =
      if healthy_with_at_least_one_config_load then insert config_component false m₀ else m₀ in
    let m = insert sigterm_component true m₁ in
    let healthy = are_all_components_healthy m in
    record { health_map = m; ok = healthy; serving = healthy }

abbrev pub invalid_component : GoString → GoString
invalid_component name = text "Invalid component: " ++ name

-- health.go, Fail: the error, and the checker that the call leaves.
unfoldable pub fail : GoString → HealthChecker → Option GoString × HealthChecker
fail name hc = elim (lookup name hc.health_map) [
  | some v ↦
      (none, record { health_map = insert name false hc.health_map; ok = false; serving = false })
  | none ↦ (some (invalid_component name), hc)
]

-- health.go, Ok
unfoldable pub set_ok : GoString → HealthChecker → Option GoString × HealthChecker
unfolding are_all_components_healthy
set_ok name hc = elim (lookup name hc.health_map) [
  | some v ↦
      let m = insert name true hc.health_map in
      (
        none,
        (if are_all_components_healthy m
            then record { health_map = m; ok = true; serving = true }
            else record hc { health_map = m }),
      )
  | none ↦ (some (invalid_component name), hc)
]

-- health.go, ServeHTTP: the status of the reply, 200 with the body "OK" or 500
unfoldable pub serve_http : HealthChecker → ℕ
serve_http hc = if hc.ok then 200 else 500
