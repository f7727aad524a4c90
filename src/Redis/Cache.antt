-- ===== src/Redis/Cache.antt =====
-- src/redis/fixed_cache_impl.go as a backend, and what ends a call early.
use api_ratelimit.Limiter.Keys.{generate_cache_keys}
use api_ratelimit.Limiter.{World}
use api_ratelimit.Common.{length, GoString, Panic, panics, ℕ, ◌≡◌, Option, some, List, ◌∷◌, arith}
use api_ratelimit.Utils.{unit_to_divider, max}
use api_ratelimit.Request.{Descriptor}
use api_ratelimit.Config.Limit.{RateLimit}
use api_ratelimit.Limiter.CacheKey.{generate_cache_key}
use api_ratelimit.Limiter.Cache.{RateLimitCache}
use api_ratelimit.Redis.FixedCache.{do_limit, FixedCache, State}

module _ {L F R : Type 0} (this : FixedCache L F R) where
  abbrev pub redis_cache : RateLimitCache (State L R)
  redis_cache = record { do_limit = do_limit this }

  no_divider_keys :
      (prefix domain : GoString) (d : Descriptor) (ds : List Descriptor) (l : RateLimit)
      (ls : List (Option RateLimit)) (n hits : ℕ) (w : World L) (p : Panic)
      → length ds ≡ length ls
      → unit_to_divider l.limit.unit ≡ panics p
      → (generate_cache_keys prefix
          (record { domain = domain; descriptors = d ∷ ds; hits_addend = n })
          (some l ∷ ls)
          hits
          w).0
        ≡ panics p
  unfolding generate_cache_keys generate_cache_key
  no_divider_keys prefix domain d ds l ls n hits w p e h = ground arith

  -- Where there are as many limits as descriptors and the first limit has a unit with no divider,
  -- the call ends in the panic of that unit.
  pub do_limit-no_divider :
      (domain : GoString) (d : Descriptor) (ds : List Descriptor) (l : RateLimit)
      (ls : List (Option RateLimit)) (n : ℕ) (s : State L R) (p : Panic)
      → length ds ≡ length ls
      → unit_to_divider l.limit.unit ≡ panics p
      → (do_limit this
          (record { domain = domain; descriptors = d ∷ ds; hits_addend = n })
          (some l ∷ ls)
          s).0
        ≡ panics p
  unfolding do_limit
  do_limit-no_divider domain d ds l ls n s p e h =
      ground (arith, no_divider_keys this.base.prefix domain d ds l ls n (max 1 n) s.world p e h)
