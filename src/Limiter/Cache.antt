-- ===== src/Limiter/Cache.antt =====
-- src/limiter/cache.go: the interface of a backend. `B` is the state of the backend.
use api_ratelimit.Common.{Go, Option, List}
use api_ratelimit.Request.{Request}
use api_ratelimit.Config.Limit.{RateLimit}
use api_ratelimit.Limiter.{DescriptorStatus}

-- cache.go, RateLimitCache
pub record RateLimitCache (B : Type 0) : Type 0 where
  pub do_limit : Request → List (Option RateLimit) → Go B (List DescriptorStatus)
