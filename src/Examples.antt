-- ===== src/Examples.antt =====
-- A limiter, two backends and a configuration to run the definitions on, with the tests of the
-- theorems in the modules below.
pub mod Limits
pub mod Configs
pub mod Serving
pub mod Helpers
pub mod Backends
pub mod Memcache
pub mod Connections
pub mod Loops
pub mod Metrics
pub mod Stored
pub mod Processes
pub mod Commands
pub mod Pools
pub mod Runners
use api_ratelimit.Common.{
  if◌then◌else◌, any, GoString, text, ◌==◌, pure, ◌>>=◌, ◌>>◌, Outcome, returns, Dict, insert,
  lookup, ℕ, ◌+◌, ◌*◌, ◌/◌, true, false, Option, none, some, List, [], ◌∷◌, ◌++◌,
}
use api_ratelimit.Utils.{LimitUnit, minute}
use api_ratelimit.Stats.{new_stats, new_service_stats}
use api_ratelimit.Request.{Entry, Descriptor}
use api_ratelimit.Config.Limit.{new_rate_limit, RateLimit}
use api_ratelimit.Config.Yaml.{YamlRateLimit, YamlDescriptors, no_items, item}
use api_ratelimit.Config.Tree.{empty_node}
use api_ratelimit.Limiter.{LocalCache, Floats, BaseRateLimiter, World}
use api_ratelimit.Redis.Driver.{Pipeline, Replies, client_of, Action, incrby, expire, get, Radix}
use api_ratelimit.Redis.FixedCache.{FixedCache, State}
use api_ratelimit.Service.Worker.{Service}

-- A local cache that keeps every key, and fractions in hundredths.
abbrev pub list_cache : LocalCache (List GoString)
list_cache = record { get = λ key l. (any (λ j. j == key) l, l); set = λ key ttl l. key ∷ l }

abbrev pub hundredths : Floats ℕ
hundredths = record { of_uint32 = λ n. n; times = λ a b. (a * b) / 100; floor_uint32 = λ n. n }

abbrev pub limiter : BaseRateLimiter (List GoString) ℕ
limiter = record {
  cache = list_cache;
  floats = hundredths;
  near_limit_ratio = 80;
  expiration_jitter_max_seconds = 0;
  prefix = [];
}

abbrev pub noon : World (List GoString)
noon = record { calls = []; local = some []; time = λ i. 1000; jitter = λ i. 0 }

abbrev pub ten_per_minute : RateLimit
ten_per_minute =
    new_rate_limit 10 minute (new_stats (text "web.user")) false false (text "users") [] false

abbrev pub user_entry : Entry
user_entry = record { key = text "user"; value = text "ann" }

abbrev pub by_user : Descriptor
by_user = record { entries = user_entry ∷ []; limit = none }

-- A Redis server with counts and no expiry.
abbrev pub or_zero_count : Option ℕ → ℕ
or_zero_count none = 0
or_zero_count (some n) = n

abbrev pub run_action : Action → Dict ℕ → Outcome Replies × Dict ℕ
run_action (incrby i k n) r =
    let count = or_zero_count (lookup k r) + n in (returns ((i, count) ∷ []), insert k count r)
run_action (expire k t) r = (returns [], r)
run_action (get i k) r = (returns ((i, or_zero_count (lookup k r)) ∷ []), r)

unfoldable pub run_actions : Pipeline → Dict ℕ → Outcome Replies × Dict ℕ
run_actions [] = pure []
run_actions (a ∷ p) = do first ← run_action a; rest ← run_actions p; pure (first ++ rest)

abbrev pub counting : Radix (Dict ℕ)
counting = record { run = run_action; run_pipeline = run_actions }

abbrev pub redis : FixedCache (List GoString) ℕ (Dict ℕ)
redis = record {
  client = client_of (record { radix = counting; implicit_pipelining = true });
  per_second_client = none;
  stop_cache_key_increment_when_overlimit = false;
  base = limiter;
}

abbrev pub fresh : State (List GoString) (Dict ℕ)
fresh = record { world = noon; redis = []; per_second_redis = [] }

-- The units by their names.
abbrev pub unit_named : GoString → Option LimitUnit
unit_named s = if s == text "MINUTE" then some minute else none

-- A file: two descriptors, one with a limit, one with a limit below.
abbrev pub yaml_ten : YamlRateLimit
yaml_ten = record {
  requests_per_unit = 10;
  unit = text "minute";
  unlimited = false;
  name = text "users";
  replaces = [];
}

abbrev pub items : YamlDescriptors
items =
    item (text "path") (text "a") none
      (item (text "user") (text "ann") (some yaml_ten) no_items false false no_items) false false
      no_items

abbrev pub service : Service (State (List GoString) (Dict ℕ))
service = record {
  config = some ((text "web", empty_node) ∷ []);
  headers = record {
    enabled = true;
    limit_header = text "L";
    remaining_header = text "R";
    reset_header = text "T";
  };
  global_shadow_mode = false;
  stats = new_service_stats;
  calls = [];
  backend = fresh;
  clock = λ i. 1000;
}
