-- ===== src/Config/Limit.antt =====
-- src/config/config.go and the constructor of src/config/config_impl.go: a configured limit.
use api_ratelimit.Common.{GoString, ℕ, Bool, List}
use api_ratelimit.Utils.{LimitUnit}
use api_ratelimit.Stats.{RateLimitStats}

-- pb.RateLimitResponse_RateLimit
pub record LimitValue : Type 0 where
  pub requests_per_unit : ℕ
  pub unit : LimitUnit
  pub name : GoString

-- config.go, RateLimit
pub record RateLimit : Type 0 where
  pub full_key : GoString
  pub stats : RateLimitStats
  pub limit : LimitValue
  pub unlimited : Bool
  pub shadow_mode : Bool
  pub name : GoString
  pub replaces : List GoString
  pub detailed_metric : Bool

-- config_impl.go, NewRateLimit
unfoldable pub new_rate_limit :
    ℕ → LimitUnit → RateLimitStats → Bool → Bool → GoString → List GoString → Bool → RateLimit
new_rate_limit requests_per_unit unit stats unlimited shadow_mode name replaces detailed_metric =
    record {
      full_key = stats.key;
      stats = stats;
      limit = record { requests_per_unit = requests_per_unit; unit = unit; name = name };
      unlimited = unlimited;
      shadow_mode = shadow_mode;
      name = name;
      replaces = replaces;
      detailed_metric = detailed_metric;
    }
