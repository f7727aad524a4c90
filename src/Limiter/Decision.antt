-- ===== src/Limiter/Decision.antt =====
-- The decision on a key (src/limiter/base_limiter.go, GetResponseDescriptorStatus).
use api_ratelimit.Common.{
  ltb, if◌then◌else◌, GoString, returns, ℕ, suc, ◌+◌, ◌-◌, ◌%◌, ◌<◌, ◌≡◌, true, false, not, ◌&&◌,
  Option, none, some, ◌∷◌, arith,
}
use api_ratelimit.Utils.{unit_to_divider, uint32_mod, sub32}
use api_ratelimit.Config.Limit.{RateLimit}
use api_ratelimit.Limiter.{
  new_rate_limit_info, is_over_limit_with_local_cache, get_response_descriptor_status,
  BaseRateLimiter, World, LimitInfo, ok, over_limit, DescriptorStatus,
}

-- The status of a key with `count` hits in its window, this request's included.
abbrev pub decision : RateLimit → ℕ → ℕ → DescriptorStatus
decision limit count reset = record {
  code =
      if ltb limit.limit.requests_per_unit count && not limit.shadow_mode then over_limit else ok;
  current_limit = some limit.limit;
  limit_remaining = limit.limit.requests_per_unit - count;
  duration_until_reset = some reset;
}

-- What the local cache holds afterwards: a key over its limit is remembered for the whole unit.
abbrev pub remembered :
    {L F : Type 0} → BaseRateLimiter L F → GoString → RateLimit → ℕ → ℕ → Option L → Option L
remembered base key limit count d none = none
remembered base key limit count d (some l) =
    some (if ltb limit.limit.requests_per_unit count then base.cache.set key d l else l)

module _ {L F : Type 0} (base : BaseRateLimiter L F) (c : ℕ) (key : GoString)
    (limit : RateLimit) where
  -- For a key that the local cache does not hold, with a known unit and with the count and the
  -- limit within 32 bits: the status is OVER_LIMIT exactly when the count is above the limit and
  -- the limit is not in shadow mode, and else OK; the rest is what is left of the limit, and the
  -- reset is the rest of the window.
  pub counted_decision :
      (before n d : ℕ) (w : World L)
      → unit_to_divider limit.limit.unit ≡ returns d
      → before + n < uint32_mod
      → limit.limit.requests_per_unit < uint32_mod
      → (get_response_descriptor_status base
          (c ∷ key)
          (new_rate_limit_info (some limit) before (before + n) 0 0)
          false
          n
          w).0
        ≡ returns (decision limit (before + n) (d - w.time 0 % d))
  unfolding get_response_descriptor_status sub32
  counted_decision before n d w known fits rfits = ground arith

  -- For a key that the local cache does not hold, with a known unit: the key is written to the
  -- local cache, if there is one, exactly when its count is above the limit, also in shadow mode.
  pub counted_remembers :
      (before n d : ℕ) (w : World L)
      → unit_to_divider limit.limit.unit ≡ returns d
      → (get_response_descriptor_status base
          (c ∷ key)
          (new_rate_limit_info (some limit) before (before + n) 0 0)
          false
          n
          w).1.local
        ≡ remembered base (c ∷ key) limit (before + n) d w.local
  unfolding get_response_descriptor_status
  counted_remembers before n d w known = ground arith

  -- A key that the local cache holds, for a limit with a known unit, is OVER_LIMIT with nothing
  -- left, and OK if the limit is in shadow mode; the reset is the rest of the window.
  pub local_decision :
      (info : LimitInfo) (n d : ℕ) (w : World L)
      → info.limit ≡ some limit
      → unit_to_divider limit.limit.unit ≡ returns d
      → (get_response_descriptor_status base (c ∷ key) info true n w).0
        ≡ returns (record {
          code = if limit.shadow_mode then ok else over_limit;
          current_limit = some limit.limit;
          limit_remaining = 0;
          duration_until_reset = some (d - w.time 0 % d);
        })
  unfolding get_response_descriptor_status
  local_decision info n d w e known = ground arith

  -- Only the first reading of the clock is used.
  pub counted_time :
      (before n d : ℕ) (w : World L)
      → unit_to_divider limit.limit.unit ≡ returns d
      → (get_response_descriptor_status base
          (c ∷ key)
          (new_rate_limit_info (some limit) before (before + n) 0 0)
          false
          n
          w).1.time
        ≡ (λ i. w.time (suc i))
  unfolding get_response_descriptor_status
  counted_time before n d w known = ground arith

-- With no local cache nothing is found in it.
pub nil_cache :
    {L F : Type 0} (base : BaseRateLimiter L F) (key : GoString) (w : World L)
    → w.local ≡ none
    → is_over_limit_with_local_cache base key w ≡ (returns false, w)
unfolding is_over_limit_with_local_cache
nil_cache base key w h = ground (arith, h)

-- The count before the hits is found again.
pub before_lem : (a n : ℕ) → a + n < uint32_mod → sub32 (a + n) n ≡ a
unfolding sub32
before_lem a n h = ground arith
