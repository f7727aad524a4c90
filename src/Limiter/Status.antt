-- ===== src/Limiter/Status.antt =====
-- What `GetResponseDescriptorStatus` returns and counts (src/limiter/base_limiter.go).
use api_ratelimit.Common.{
  leb, if◌then◌else◌, GoString, Outcome, returns, ℕ, ◌+◌, ◌≤◌, ◌<◌, ◌≡◌, Bool, false, some, ◌∷◌,
  arith,
}
use api_ratelimit.Utils.{unit_to_divider, uint32_mod, add32, sub32}
use api_ratelimit.Stats.{
  added, counter, IsSeparated, Kind, all_hits, over_hits, near_hits, local_hits, within_hits,
  shadow_hits,
}
use api_ratelimit.Config.Limit.{RateLimit}
use api_ratelimit.Limiter.{
  new_rate_limit_info, near_threshold, get_response_descriptor_status, BaseRateLimiter, World,
  DescriptorStatus,
}
use api_ratelimit.Limiter.Hits.{count_hits, is_over, is_near, count-over, count-near}

-- The amount by which a kind of counter should grow, for a limit that is read from the backend.
abbrev pub expected : Kind → Bool → ℕ → ℕ → ℕ → ℕ → ℕ
expected over_hits shadow near limit before n = count_hits (is_over limit) before n
expected near_hits shadow near limit before n = count_hits (is_near near limit) before n
expected within_hits shadow near limit before n = if leb (before + n) limit then n else 0
expected shadow_hits shadow near limit before n =
    if shadow then count_hits (is_over limit) before n else 0
expected local_hits _ near limit before n = 0
expected all_hits _ near limit before n = 0

module _ {L F : Type 0} (base : BaseRateLimiter L F) (c : ℕ) (key : GoString)
    (limit : RateLimit) where
  abbrev pub counted : ℕ → ℕ → World L → Outcome DescriptorStatus × World L
  counted before n w =
      get_response_descriptor_status base (c ∷ key)
        (new_rate_limit_info (some limit) before (add32 before n) 0 0) false n w

  -- For a key that the local cache does not hold, with counts and limit within 32 bits, a known unit,
  -- counters with different names and a near threshold of at most the limit, and with the hits of the request counted one at a time: the
  -- counter of hits over the limit grows by those above the limit, that of hits near the limit by
  -- those above the near threshold and not above the limit, and that of the shadow mode by those above
  -- the limit if the limit is in shadow mode. The counter of hits within the limit grows by all the hits
  -- if the last is not above the limit, and else not at all; those of all hits and of the local cache do
  -- not grow here.
  pub counted-added :
      (k : Kind) (before n d : ℕ) (w : World L)
      → unit_to_divider limit.limit.unit ≡ returns d
      → IsSeparated limit.stats
      → before + n < uint32_mod
      → limit.limit.requests_per_unit < uint32_mod
      → near_threshold base limit.limit.requests_per_unit ≤ limit.limit.requests_per_unit
      → added (counter limit.stats k) (counted before n w).1.calls
        ≡ expected k limit.shadow_mode
            (near_threshold base limit.limit.requests_per_unit)
            limit.limit.requests_per_unit
            before
            n
          + added (counter limit.stats k) w.calls
  unfolding get_response_descriptor_status added add32 sub32
  counted-added over_hits before n d w known sep fits rfits near_fits = ground (
    arith,
    sep over_hits over_hits,
    sep near_hits over_hits,
    sep within_hits over_hits,
    sep shadow_hits over_hits,
    count-over limit.limit.requests_per_unit before n,
  )
  counted-added near_hits before n d w known sep fits rfits near_fits = ground (
    arith,
    sep over_hits near_hits,
    sep near_hits near_hits,
    sep within_hits near_hits,
    sep shadow_hits near_hits,
    count-near (near_threshold base limit.limit.requests_per_unit) limit.limit.requests_per_unit
        before n,
  )
  counted-added within_hits before n d w known sep fits rfits near_fits = ground (
    arith,
    sep over_hits within_hits,
    sep near_hits within_hits,
    sep within_hits within_hits,
    sep shadow_hits within_hits,
  )
  counted-added shadow_hits before n d w known sep fits rfits near_fits = ground (
    arith,
    sep over_hits shadow_hits,
    sep near_hits shadow_hits,
    sep within_hits shadow_hits,
    sep shadow_hits shadow_hits,
    count-over limit.limit.requests_per_unit before n,
  )
  counted-added local_hits before n d w known sep fits rfits near_fits = ground (
    arith,
    sep over_hits local_hits,
    sep near_hits local_hits,
    sep within_hits local_hits,
    sep shadow_hits local_hits,
  )
  counted-added all_hits before n d w known sep fits rfits near_fits = ground (
    arith,
    sep over_hits all_hits,
    sep near_hits all_hits,
    sep within_hits all_hits,
    sep shadow_hits all_hits,
  )
