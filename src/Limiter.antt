-- ===== src/Limiter.antt =====
-- src/limiter/base_limiter.go. The proofs are in the modules below.
pub mod CacheKey
pub mod Keys
pub mod Cache
pub mod Decision
pub mod Hits
pub mod Windows
pub mod Status
pub mod Batch
use api_ratelimit.Common.{
  ltb, leb, if◌then◌else◌, GoString, text, Go, pure, ◌>>=◌, ◌>>◌, modify, Panic, other_error,
  returns, panics, ℕ, suc, ◌%◌, Bool, true, false, ◌&&◌, ◌||◌, Option, none, some, [], ◌∷◌,
}
use api_ratelimit.Utils.{unit_to_divider, calculate_reset, max, sub32}
use api_ratelimit.Stats.{Calls, Counter}
use api_ratelimit.Config.Limit.{LimitValue, RateLimit}

-- The local cache, a library: what its two calls return, and the cache that they leave. The code
-- only logs an error of a write.
pub record LocalCache (L : Type 0) : Type 0 where
  pub get : GoString → L → Bool × L
  pub set : GoString → ℕ → L → L

-- float32 and float64: the conversions, the product and `math.Floor` with the conversion to uint32.
pub record Floats (F : Type 0) : Type 0 where
  pub of_uint32 : ℕ → F
  pub times : F → F → F
  pub floor_uint32 : F → ℕ

-- base_limiter.go, BaseRateLimiter. The time source and the source of jitter are in `World`.
pub record BaseRateLimiter (L F : Type 0) : Type 0 where
  pub cache : LocalCache L
  pub floats : Floats F
  pub near_limit_ratio : F
  pub expiration_jitter_max_seconds : ℕ
  pub prefix : GoString

-- What the calls change: the additions to counters, the local cache (`none` where it is nil), the
-- times that `UnixNow` is going to return, and the random numbers to come.
pub record World (L : Type 0) : Type 0 where
  pub calls : Calls
  pub local : Option L
  pub time : ℕ → ℕ
  pub jitter : ℕ → ℕ

-- base_limiter.go, LimitInfo
pub record LimitInfo : Type 0 where
  pub limit : Option RateLimit
  pub limit_before_increase : ℕ
  pub limit_after_increase : ℕ
  pub near_limit_threshold : ℕ
  pub over_limit_threshold : ℕ

-- base_limiter.go, NewRateLimitInfo
abbrev pub new_rate_limit_info : Option RateLimit → ℕ → ℕ → ℕ → ℕ → LimitInfo
new_rate_limit_info limit before after near over = record {
  limit = limit;
  limit_before_increase = before;
  limit_after_increase = after;
  near_limit_threshold = near;
  over_limit_threshold = over;
}

-- pb.RateLimitResponse_Code; UNKNOWN is never assigned.
pub data Code : Type 0 where
  code_unknown ok over_limit : Code

-- pb.RateLimitResponse_DescriptorStatus
pub record DescriptorStatus : Type 0 where
  pub code : Code
  pub current_limit : Option LimitValue
  pub limit_remaining : ℕ
  pub duration_until_reset : Option ℕ

abbrev pub nil_dereference : Panic
nil_dereference = other_error (text "invalid memory address or nil pointer dereference")

module _ {L : Type 0} where
  -- counter.Add(n)
  unfoldable pub add : Counter → ℕ → Go (World L) Unit
  add c n = modify (λ w. record w { calls = (c, n) ∷ w.calls })

  -- timeSource.UnixNow()
  unfoldable pub unix_now : Go (World L) ℕ
  unix_now w = (returns (w.time 0), record w { time = λ n. w.time (suc n) })

  -- JitterRand.Int63n(max)
  unfoldable pub int63n : ℕ → Go (World L) ℕ
  int63n m w = (returns (w.jitter 0 % m), record w { jitter = λ n. w.jitter (suc n) })

  -- base_limiter.go, generateResponseDescriptorStatus
  unfoldable pub generate_response_descriptor_status :
      Code → Option LimitValue → ℕ → Go (World L) DescriptorStatus
  unfolding unix_now calculate_reset
  generate_response_descriptor_status code none remaining = pure (record {
    code = code;
    current_limit = none;
    limit_remaining = remaining;
    duration_until_reset = none;
  })
  generate_response_descriptor_status code (some limit) remaining = do
    reset ← calculate_reset limit.unit unix_now
    pure (record {
      code = code;
      current_limit = some limit;
      limit_remaining = remaining;
      duration_until_reset = some reset;
    })

  -- base_limiter.go, checkOverLimitThreshold; `limit` is what `limitInfo.limit` points to.
  unfoldable pub check_over_limit_threshold : RateLimit → LimitInfo → ℕ → Go (World L) Unit
  unfolding add max
  check_over_limit_threshold limit info hits_addend =
      if leb info.over_limit_threshold info.limit_before_increase
      then add limit.stats.over_limit hits_addend
      else do
        add limit.stats.over_limit (sub32 info.limit_after_increase info.over_limit_threshold)
        add limit.stats.near_limit (
            sub32 info.over_limit_threshold
              (max info.near_limit_threshold info.limit_before_increase))

  -- base_limiter.go, checkNearLimitThreshold
  unfoldable pub check_near_limit_threshold : RateLimit → LimitInfo → ℕ → Go (World L) Unit
  unfolding add
  check_near_limit_threshold limit info hits_addend =
      if ltb info.near_limit_threshold info.limit_after_increase
      then (if leb info.near_limit_threshold info.limit_before_increase
          then add limit.stats.near_limit hits_addend
          else add limit.stats.near_limit
              (sub32 info.limit_after_increase info.near_limit_threshold))
      else pure tt

  -- base_limiter.go, increaseShadowModeStats
  unfoldable pub increase_shadow_mode_stats : Bool → RateLimit → LimitInfo → ℕ → Go (World L) Unit
  unfolding add
  increase_shadow_mode_stats is_local limit info hits_addend =
      if is_local || leb info.over_limit_threshold info.limit_before_increase
      then add limit.stats.shadow_mode hits_addend
      else add limit.stats.shadow_mode (sub32 info.limit_after_increase info.over_limit_threshold)

module _ {L F : Type 0} (base : BaseRateLimiter L F) where
  -- base_limiter.go, IsOverLimitWithLocalCache
  unfoldable pub is_over_limit_with_local_cache : GoString → Go (World L) Bool
  is_over_limit_with_local_cache key w = elim w.local [
    | none ↦ (returns false, w)
    | some l ↦ let (hit, l') = base.cache.get key l in (returns hit, record w { local = some l' })
  ]

  -- base_limiter.go, the write of a key that is over its limit to the local cache
  unfoldable pub remember_over_limit : GoString → RateLimit → Go (World L) Unit
  unfolding unit_to_divider
  remember_over_limit key limit w = elim w.local [
    | none ↦ (returns tt, w)
    | some l ↦ elim (unit_to_divider limit.limit.unit) [
      | panics p ↦ (panics p, w)
      | returns ttl ↦ (returns tt, record w { local = some (base.cache.set key ttl l) })
    ]
  ]

  -- base_limiter.go, the threshold at which a limit is near
  unfoldable pub near_threshold : ℕ → ℕ
  near_threshold over =
      let f = base.floats in f.floor_uint32 (f.times (f.of_uint32 over) base.near_limit_ratio)

  unfoldable pub with_thresholds : RateLimit → LimitInfo → LimitInfo
  with_thresholds limit info =
      let over = limit.limit.requests_per_unit in
      record info { over_limit_threshold = over; near_limit_threshold = near_threshold over }

  -- base_limiter.go, GetResponseDescriptorStatus: the branch of a key in the local cache
  unfoldable pub local_status : RateLimit → ℕ → Go (World L) DescriptorStatus
  unfolding add generate_response_descriptor_status
  local_status limit hits_addend = do
    add limit.stats.over_limit hits_addend
    add limit.stats.over_limit_with_local_cache hits_addend
    generate_response_descriptor_status over_limit (some limit.limit) 0

  -- base_limiter.go, GetResponseDescriptorStatus: the branch that compares the counts
  unfoldable pub counted_status :
      GoString → RateLimit → LimitInfo → ℕ → Go (World L) DescriptorStatus
  unfolding add generate_response_descriptor_status check_over_limit_threshold remember_over_limit
      check_near_limit_threshold
  counted_status key limit info hits_addend =
      if ltb info.over_limit_threshold info.limit_after_increase
      then (do
        status ← generate_response_descriptor_status over_limit (some limit.limit) 0
        check_over_limit_threshold limit info hits_addend
        remember_over_limit key limit
        pure status)
      else do
        status ←
            generate_response_descriptor_status ok (some limit.limit)
              (sub32 info.over_limit_threshold info.limit_after_increase)
        check_near_limit_threshold limit info hits_addend
        add limit.stats.within_limit hits_addend
        pure status

  -- base_limiter.go, GetResponseDescriptorStatus: the shadow mode of the limit
  unfoldable pub apply_shadow_mode :
      Bool → RateLimit → LimitInfo → Bool → ℕ → DescriptorStatus → Go (World L) DescriptorStatus
  unfolding increase_shadow_mode_stats
  apply_shadow_mode is_over limit info is_local hits_addend status =
      if is_over && limit.shadow_mode
      then (do
        increase_shadow_mode_stats is_local limit info hits_addend
        pure (record status { code = ok }))
      else pure status

  unfoldable pub limited_status :
      GoString → RateLimit → LimitInfo → Bool → ℕ → Go (World L) DescriptorStatus
  unfolding local_status with_thresholds counted_status apply_shadow_mode
  limited_status key limit info true hits_addend = do
    status ← local_status limit hits_addend
    apply_shadow_mode true limit info true hits_addend status
  limited_status key limit info false hits_addend =
      let info' = with_thresholds limit info in
      do
        status ← counted_status key limit info' hits_addend
        apply_shadow_mode (ltb info'.over_limit_threshold info'.limit_after_increase) limit info'
            false hits_addend status

  -- base_limiter.go, GetResponseDescriptorStatus
  unfoldable pub get_response_descriptor_status :
      GoString → LimitInfo → Bool → ℕ → Go (World L) DescriptorStatus
  unfolding generate_response_descriptor_status limited_status
  get_response_descriptor_status [] info is_local hits_addend w =
      generate_response_descriptor_status ok none 0 w
  get_response_descriptor_status (c ∷ key) info is_local hits_addend w = elim info.limit [
    | none ↦ (panics nil_dereference, w)
    | some limit ↦ limited_status (c ∷ key) limit info is_local hits_addend w
  ]

  -- base_limiter.go, IsOverLimitThresholdReached, for the limit that the info points to
  unfoldable pub is_over_limit_threshold_reached : RateLimit → LimitInfo → Bool
  is_over_limit_threshold_reached limit info =
      ltb limit.limit.requests_per_unit info.limit_after_increase
