-- ===== src/Limiter/CacheKey.antt =====
-- src/limiter/cache_key.go
use Prim.Native.Nat.{ℕ}
use api_ratelimit.Common.{
  GoString, and_then, Outcome, returns, ◌*◌, ◌/◌, Bool, true, false, Option, none, some, List, [],
  ◌∷◌, ◌++◌,
}
use api_ratelimit.Common.Strings.{format_uint}
use api_ratelimit.Utils.{unit_to_divider, LimitUnit, second}
use api_ratelimit.Request.{Entry, Descriptor}
use api_ratelimit.Config.Limit.{RateLimit}

-- cache_key.go, CacheKey
pub record CacheKey : Type 0 where
  pub key : GoString
  pub per_second : Bool

abbrev pub no_key : CacheKey
no_key = record { key = []; per_second = false }

-- cache_key.go, isPerSecondLimit
abbrev pub is_per_second_limit : LimitUnit → Bool
is_per_second_limit second = true
is_per_second_limit _ = false

-- cache_key.go, GenerateCacheKey: what the loop over the entries writes to the buffer
unfoldable pub write_entries : List Entry → GoString
write_entries [] = []
write_entries (e ∷ es) = e.key ++ b'_' ∷ (e.value ++ b'_' ∷ write_entries es)

-- The part of the key before the time.
unfoldable pub key_stem : GoString → GoString → List Entry → GoString
unfolding write_entries
key_stem prefix domain entries = prefix ++ (domain ++ b'_' ∷ write_entries entries)

-- cache_key.go, GenerateCacheKey
unfoldable pub generate_cache_key :
    GoString → GoString → Descriptor → Option RateLimit → ℕ → Outcome CacheKey
unfolding key_stem unit_to_divider
generate_cache_key prefix domain descriptor none now = returns no_key
generate_cache_key prefix domain descriptor (some limit) now =
    and_then (unit_to_divider limit.limit.unit) λ divider. returns (record {
      key = key_stem prefix domain descriptor.entries ++ format_uint ((now / divider) * divider);
      per_second = is_per_second_limit limit.limit.unit;
    })
