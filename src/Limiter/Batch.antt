-- ===== src/Limiter/Batch.antt =====
-- What a request with any number of descriptors should do to the counters, as a specification for
-- the backends: the descriptors are taken one after the other, each adds the hits of the request to
-- its counter, and the count decides its status.
pub mod Keys
pub mod Statuses
use api_ratelimit.Common.{
  if◌then◌else◌, GoString, ◌==◌, Outcome, returns, panics, ℕ, suc, ◌+◌, ◌-◌, ◌*◌, ◌/◌, ◌%◌, ◌<◌,
  ◌≡◌, refl, Bool, true, false, ◌&&◌, Option, none, some, List, [], ◌∷◌, ◌++◌,
}
use api_ratelimit.Common.Strings.{format_uint}
use api_ratelimit.Utils.{unit_to_divider, uint32_mod}
use api_ratelimit.Request.{Descriptor}
use api_ratelimit.Config.Limit.{RateLimit}
use api_ratelimit.Limiter.{ok, DescriptorStatus}
use api_ratelimit.Limiter.CacheKey.{no_key, is_per_second_limit, key_stem, CacheKey}
use api_ratelimit.Limiter.Decision.{decision}

-- A descriptor with the limit that the configuration has for it.
pub data BatchItem : Type 0 where
  free : Descriptor → BatchItem
  limited : Descriptor → RateLimit → BatchItem

abbrev pub descriptor_of : BatchItem → Descriptor
descriptor_of (free d) = d
descriptor_of (limited d l) = d

abbrev pub limit_of : BatchItem → Option RateLimit
limit_of (free d) = none
limit_of (limited d l) = some l

abbrev pub or_zero : Outcome ℕ → ℕ
or_zero (returns d) = d
or_zero (panics p) = 0

-- The seconds of the window of a limit.
abbrev pub window : RateLimit → ℕ
window l = or_zero (unit_to_divider l.limit.unit)

-- Limits with a known unit and within 32 bits.
abbrev pub Known : BatchItem → Type 0
Known (free d) = Unit
Known (limited d l) =
    (unit_to_divider l.limit.unit ≡ returns (window l)) × (l.limit.requests_per_unit < uint32_mod)

-- The counters by key.
abbrev pub Counts : Type 0
Counts = GoString → ℕ

abbrev pub bump : Counts → GoString → ℕ → Counts
bump counts k n j = if k == j then counts k + n else counts j

-- The counters of the two servers: `true` is the one for limits per second.
abbrev pub Stores : Type 0
Stores = Bool → Counts

abbrev pub bump_at : Stores → Bool → GoString → ℕ → Stores
bump_at stores true k n true = bump (stores true) k n
bump_at stores true k n false = stores false
bump_at stores false k n true = stores true
bump_at stores false k n false = bump (stores false) k n

-- The server that counts for a limit, where there is a dedicated one for limits per second or not.
abbrev pub store_of : Bool → RateLimit → Bool
store_of dedicated l = dedicated && is_per_second_limit l.limit.unit

abbrev pub no_limit_status : DescriptorStatus
no_limit_status = record {
  code = ok;
  current_limit = none;
  limit_remaining = 0;
  duration_until_reset = none;
}

-- A key that is not empty.
abbrev pub IsLong : GoString → Type 0
IsLong s = (c : ℕ) × (k : GoString) × (s ≡ c ∷ k)

pub long_key : (s : GoString) → IsLong s → (s == []) ≡ false
unfolding ◌==◌
long_key s (c, k, e) = rw e refl

prefix_lem : (a b : GoString) → IsLong a → IsLong (a ++ b)
prefix_lem a b (c, k, e) = (c, k ++ b, rw e refl)

suffix_lem : (a b : GoString) → IsLong b → IsLong (a ++ b)
suffix_lem [] b h = h
suffix_lem (x ∷ a) b h = (x, a ++ b, refl)

module _ (prefix domain : GoString) (now : ℕ) where
  abbrev pub key_of : RateLimit → Descriptor → GoString
  key_of l d = key_stem prefix domain d.entries ++ format_uint ((now / window l) * window l)

  abbrev pub cache_key_of : BatchItem → CacheKey
  cache_key_of (free d) = no_key
  cache_key_of (limited d l) = record {
    key = key_of l d;
    per_second = is_per_second_limit l.limit.unit;
  }

  module _ (dedicated : Bool) (hits : ℕ) where
    -- The statuses, and the counters afterwards. The clock is read once for each limit.
    unfoldable pub admit : Stores → (ℕ → ℕ) → List BatchItem → List DescriptorStatus × Stores
    admit stores clock [] = ([], stores)
    admit stores clock (free d ∷ is) =
        let (statuses, final) = admit stores clock is in (no_limit_status ∷ statuses, final)
    admit stores clock (limited d l ∷ is) =
        let k = key_of l d in
        let b = store_of dedicated l in
        let (statuses, final) = admit (bump_at stores b k hits) (λ i. clock (suc i)) is in
        (decision l (stores b k + hits) (window l - clock 0 % window l) ∷ statuses, final)

    -- The counters after the hits of all descriptors.
    unfoldable pub bumped : Stores → List BatchItem → Stores
    bumped stores [] = stores
    bumped stores (free d ∷ is) = bumped stores is
    bumped stores (limited d l ∷ is) =
        bumped (bump_at stores (store_of dedicated l) (key_of l d) hits) is

  module _ (hits : ℕ) where
    -- The statuses where the counters are read once, before any of the descriptors is counted.
    unfoldable pub peek : Counts → (ℕ → ℕ) → List BatchItem → List DescriptorStatus
    peek counts clock [] = []
    peek counts clock (free d ∷ is) = no_limit_status ∷ peek counts clock is
    peek counts clock (limited d l ∷ is) =
        decision l (counts (key_of l d) + hits) (window l - clock 0 % window l)
        ∷ peek counts (λ i. clock (suc i)) is

  pub key_of-IsLong : (l : RateLimit) (d : Descriptor) → IsLong (key_of l d)
  unfolding key_stem
  key_of-IsLong l d = prefix_lem _ _ (suffix_lem prefix _ (suffix_lem domain _ (b'_', _, refl)))
