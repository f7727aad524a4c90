-- ===== src/Redis/Window.antt =====
-- Requests one after the other in one window (src/redis/fixed_cache_impl.go, DoLimit).
use api_ratelimit.Limiter.Decision.{decision}
use api_ratelimit.Common.{
  GoString, eq_refl, Outcome, returns, ℕ, zero, suc, ◌+◌, ◌-◌, ◌*◌, ◌%◌, ◌≤◌, ◌<◌, ◌≡◌, refl, ap,
  ◌∙◌, Bool, none, some, List, [], ◌∷◌, arith,
}
use api_ratelimit.Utils.{unit_to_divider, max, uint32_mod}
use api_ratelimit.Request.{Descriptor}
use api_ratelimit.Config.Limit.{RateLimit}
use api_ratelimit.Limiter.{BaseRateLimiter, DescriptorStatus}
use api_ratelimit.Limiter.CacheKey.{generate_cache_key}
use api_ratelimit.Redis.Driver.{RunsInOrder, Radix}
use api_ratelimit.Redis.FixedCache.{State}
use api_ratelimit.Redis.Single.{CountsKeys}
use api_ratelimit.Redis.Quota.{answer, do_limit_quota, do_limit_world}

zero_more : (a h : ℕ) → a ≡ a + 0 * h
zero_more a h = grind arith

one_more : (a m h : ℕ) → (a + m * h) + h ≡ a + suc m * h
one_more a m h = grind arith

fewer : (a m h : ℕ) → a + suc m * h < uint32_mod → a + m * h < uint32_mod
fewer a m h e = omega (arith, one_more a m h, e)

one_fits : (a m h : ℕ) → a + suc m * h < uint32_mod → (a + m * h) + h < uint32_mod
one_fits a m h e = rw (one_more a m h) e

module _ {L F R : Type 0} (base : BaseRateLimiter L F) (radix : Radix R) (law : CountsKeys radix)
    (in_order : RunsInOrder radix) (implicit stop : Bool) (c : ℕ) (k : GoString) (b : Bool)
    (limit : RateLimit) (domain : GoString) (descriptor : Descriptor) (n d : ℕ) where
  -- One call in a state.
  abbrev pub call : State L R → Outcome (List DescriptorStatus) × State L R
  call s =
      answer base radix law in_order implicit stop c k b limit domain descriptor n d s.world s.redis
        s.per_second_redis

  -- The state after so many calls.
  unfoldable pub after : ℕ → State L R → State L R
  after zero s = s
  after (suc m) s = (call (after m s)).1

  -- All readings of the clock to come lie in the window of the key, and there is no local cache.
  pub record InWindow (s : State L R) : Type 0 where
    pub no_cache : s.world.local ≡ none
    pub one_key :
        (i : ℕ)
        → generate_cache_key base.prefix domain descriptor (some limit) (s.world.time i)
          ≡ returns (record { key = c ∷ k; per_second = b })

  module _ (unit_known : unit_to_divider limit.limit.unit ≡ returns d)
      (limit_fits : limit.limit.requests_per_unit < uint32_mod) (covered : law.span ≤ d) where
    call-InWindow :
        (s : State L R)
        → InWindow s
        → law.count s.redis (c ∷ k) + max 1 n < uint32_mod
        → InWindow (call s).1
    call-InWindow s v fits =
        let (no_local, later) =
          do_limit_world base radix law in_order implicit stop c k b limit domain descriptor n d
            s.world s.redis s.per_second_redis v.no_cache unit_known (v.one_key 0) fits in
        record {
          no_cache = no_local;
          one_key = λ i.
              ap
                (λ (t : ℕ → ℕ). generate_cache_key base.prefix domain descriptor (some limit) (t i))
                later
              ∙ v.one_key (suc (suc i));
        }

    -- What one call answers and counts.
    counted_call :
        (s : State L R)
        → InWindow s
        → law.count s.redis (c ∷ k) + max 1 n < uint32_mod
        → ((reset : ℕ) × ((call s).0
              ≡ returns (decision limit (law.count s.redis (c ∷ k) + max 1 n) reset ∷ [])))
          × (law.count (call s).1.redis (c ∷ k) ≡ law.count s.redis (c ∷ k) + max 1 n)
    counted_call s v fits =
        let (status, counts) =
          do_limit_quota base radix law in_order implicit stop c k b limit domain descriptor n d
            s.world s.redis s.per_second_redis v.no_cache unit_known (v.one_key 0) fits limit_fits
            covered in
        ((d - s.world.time 1 % d, status), counts (c ∷ k) ∙ rw (eq_refl (c ∷ k)) refl)

    after-InWindow :
        (m : ℕ) (s : State L R)
        → InWindow s
        → law.count s.redis (c ∷ k) + m * max 1 n < uint32_mod
        → InWindow (after m s)
          × (law.count (after m s).redis (c ∷ k) ≡ law.count s.redis (c ∷ k) + m * max 1 n)
    unfolding after
    after-InWindow zero s v fits = (v, zero_more (law.count s.redis (c ∷ k)) (max 1 n))
    after-InWindow (suc m) s v fits =
        let count = law.count s.redis (c ∷ k) in
        let (before, counted) = after-InWindow m s v (fewer count m (max 1 n) fits) in
        let room : law.count (after m s).redis (c ∷ k) + max 1 n < uint32_mod =
          rw counted (one_fits count m (max 1 n) fits) in
        (
          call-InWindow (after m s) before room,
          (counted_call (after m s) before room).1
              ∙ (ap (λ x. x + max 1 n) counted ∙ one_more count m (max 1 n)),
        )

    -- Requests with one descriptor that come one after the other, the clock always in one window of
    -- the limit, whose unit is known and whose cache key is not empty; with no local cache, no client
    -- for limits per second, counts and limit within 32 bits, and a server that runs commands in order
    -- and counts, which keeps a key over the time that the requests take, at most the window, if
    -- EXPIRE gives it at least that time: the request after `m` others is decided by the count at the
    -- start and the hits of `m + 1` requests. This is so also for requests over the limit, and also
    -- with STOP_CACHE_KEY_INCREMENT_WHEN_OVERLIMIT.
    pub do_limit_window :
        (m : ℕ) (s : State L R)
        → InWindow s
        → law.count s.redis (c ∷ k) + suc m * max 1 n < uint32_mod
        → (reset : ℕ) × ((call (after m s)).0
            ≡ returns (decision limit (law.count s.redis (c ∷ k) + suc m * max 1 n) reset ∷ []))
    do_limit_window m s v fits =
        let count = law.count s.redis (c ∷ k) in
        let (before, counted) = after-InWindow m s v (fewer count m (max 1 n) fits) in
        let room : law.count (after m s).redis (c ∷ k) + max 1 n < uint32_mod =
          rw counted (one_fits count m (max 1 n) fits) in
        let ((reset, status), _) = counted_call (after m s) before room in
        (
          reset,
          status
              ∙ ap (λ x. returns (decision limit x reset ∷ []))
                  (ap (λ x. x + max 1 n) counted ∙ one_more count m (max 1 n)),
        )
