-- ===== src/Redis/Pool.antt =====
-- The trace of a pool of connections (src/redis/driver_impl.go, poolStats and poolTrace). A function is
-- what one callback does alone: the callbacks hold no lock, and their calls of the gauges and of the
-- health checker may come between those of another.
pub mod Health
use api_ratelimit.Common.{
  if◌then◌else◌, nat_eq, GoString, ℕ, ◌+◌, ◌-◌, ◌%◌, Bool, ◌&&◌, Option, none, some,
}
use api_ratelimit.Server.Health.{redis_component, fail, set_ok, HealthChecker}

-- Gauges and counters are uint64 numbers.
abbrev pub uint64_mod : ℕ
uint64_mod = 18446744073709551616

unfoldable pub add64 : ℕ → ℕ → ℕ
add64 a b = (a + b) % uint64_mod

unfoldable pub sub64 : ℕ → ℕ → ℕ
sub64 a b = (a + uint64_mod - b) % uint64_mod

-- driver_impl.go, poolStats
pub record PoolStats : Type 0 where
  pub connection_active : ℕ
  pub connection_total : ℕ
  pub connection_close : ℕ

-- driver_impl.go, newPoolStats
abbrev pub new_pool_stats : PoolStats
new_pool_stats = record { connection_active = 0; connection_total = 0; connection_close = 0 }

-- The statistics, and the health checker of the server (`none` where the server is nil).
pub record Pool : Type 0 where
  pub stats : PoolStats
  pub health : Option HealthChecker

abbrev pub map_health :
    (HealthChecker → HealthChecker) → Option HealthChecker → Option HealthChecker
map_health f none = none
map_health f (some h) = some (f h)

module _ (health_check_active_connection : Bool) where
  -- driver_impl.go, poolTrace: ConnCreated, given the error of the connection. Errors are logged.
  unfoldable pub conn_created : Option GoString → Pool → Pool
  unfolding add64 set_ok
  conn_created (some err) p = p
  conn_created none p =
      let stats = record p.stats {
        connection_total = add64 p.stats.connection_total 1;
        connection_active = add64 p.stats.connection_active 1;
      } in
      record {
        stats = stats;
        health =
            if health_check_active_connection
            then map_health (λ h. (set_ok redis_component h).1) p.health
            else p.health;
      }

  -- driver_impl.go, poolTrace: ConnClosed
  unfoldable pub conn_closed : Pool → Pool
  unfolding sub64 add64 fail
  conn_closed p =
      let active = sub64 p.stats.connection_active 1 in
      let stats = record p.stats {
        connection_active = active;
        connection_close = add64 p.stats.connection_close 1;
      } in
      record {
        stats = stats;
        health =
            if health_check_active_connection && nat_eq active 0
            then map_health (λ h. (fail redis_component h).1) p.health
            else p.health;
      }
