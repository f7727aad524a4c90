-- ===== src/Stats.antt =====
-- src/stats/manager.go and src/stats/manager_impl.go. The metrics library is not part of the
-- repository: a counter is the scope and the name that it is made with, and an addition is a call
-- in a log.
pub mod Naming
use api_ratelimit.Common.{
  if◌then◌else◌, GoString, text, ◌==◌, ℕ, ◌+◌, ◌≡◌, Bool, true, false, ◌&&◌, List, [], ◌∷◌, ◌++◌,
}
use api_ratelimit.Utils.{sanitize_stat_name}

-- The scopes of `ManagerImpl`, rlStatsScope, serviceStatsScope and shouldRateLimitScope, and the one
-- of the memcached client.
pub data Counter : Type 0 where
  rate_limit_scope : GoString → Counter
  service_scope : GoString → Counter
  should_rate_limit_scope : GoString → Counter
  memcache_scope : GoString → GoString → Counter

unfoldable pub same_counter : Counter → Counter → Bool
same_counter (rate_limit_scope a) (rate_limit_scope b) = a == b
same_counter (service_scope a) (service_scope b) = a == b
same_counter (should_rate_limit_scope a) (should_rate_limit_scope b) = a == b
same_counter (memcache_scope a c) (memcache_scope b d) = a == b && c == d
same_counter _ _ = false

-- The calls `counter.Add(n)`, the latest first.
abbrev pub Calls : Type 0
Calls = List (Counter × ℕ)

-- What the calls have added to a counter.
unfoldable pub added : Counter → Calls → ℕ
added c [] = 0
added c ((d, n) ∷ rest) = (if same_counter d c then n else 0) + added c rest

-- manager.go, RateLimitStats
pub record RateLimitStats : Type 0 where
  pub key : GoString
  pub total_hits : Counter
  pub over_limit : Counter
  pub near_limit : Counter
  pub over_limit_with_local_cache : Counter
  pub within_limit : Counter
  pub shadow_mode : Counter

-- manager.go, ServiceStats and ShouldRateLimitStats
pub record ServiceStats : Type 0 where
  pub config_load_success : Counter
  pub config_load_error : Counter
  pub redis_errors : Counter
  pub service_errors : Counter
  pub global_shadow_mode : Counter

-- manager_impl.go, NewStats
unfoldable pub new_stats : GoString → RateLimitStats
new_stats key =
    let name = sanitize_stat_name key in
    record {
      key = key;
      total_hits = rate_limit_scope (name ++ text ".total_hits");
      over_limit = rate_limit_scope (name ++ text ".over_limit");
      near_limit = rate_limit_scope (name ++ text ".near_limit");
      over_limit_with_local_cache = rate_limit_scope (name ++ text ".over_limit_with_local_cache");
      within_limit = rate_limit_scope (name ++ text ".within_limit");
      shadow_mode = rate_limit_scope (name ++ text ".shadow_mode");
    }

-- manager_impl.go, NewDomainStats: the counter `NotFound`.
unfoldable pub new_domain_stats : GoString → Counter
new_domain_stats domain = rate_limit_scope (sanitize_stat_name domain ++ text ".domain_not_found")

-- manager_impl.go, NewServiceStats and NewShouldRateLimitStats
unfoldable pub new_service_stats : ServiceStats
new_service_stats = record {
  config_load_success = service_scope (text "config_load_success");
  config_load_error = service_scope (text "config_load_error");
  redis_errors = should_rate_limit_scope (text "redis_error");
  service_errors = should_rate_limit_scope (text "service_error");
  global_shadow_mode = service_scope (text "global_shadow_mode");
}

-- The counters of a rate limit, by kind.
pub data Kind : Type 0 where
  all_hits over_hits near_hits local_hits within_hits shadow_hits : Kind

abbrev pub counter : RateLimitStats → Kind → Counter
counter s all_hits = s.total_hits
counter s over_hits = s.over_limit
counter s near_hits = s.near_limit
counter s local_hits = s.over_limit_with_local_cache
counter s within_hits = s.within_limit
counter s shadow_hits = s.shadow_mode

abbrev pub same_kind : Kind → Kind → Bool
same_kind all_hits all_hits = true
same_kind over_hits over_hits = true
same_kind near_hits near_hits = true
same_kind local_hits local_hits = true
same_kind within_hits within_hits = true
same_kind shadow_hits shadow_hits = true
same_kind _ _ = false

-- No two counters of the limit are one.
abbrev pub IsSeparated : RateLimitStats → Type 0
IsSeparated s = (a b : Kind) → same_counter (counter s a) (counter s b) ≡ same_kind a b
