-- ===== src/Redis/FixedCache.antt =====
-- src/redis/fixed_cache_impl.go
use api_ratelimit.Common.{
  ltb, if◌then◌else◌, length, replicate, set, any, GoString, ◌==◌, Go, pure, panic, lift, ◌>>=◌,
  returns, panics, ℕ, suc, ◌+◌, Bool, true, false, not, ◌&&◌, ◌||◌, Option, none, some, List, [],
  ◌∷◌, ◌++◌,
}
use api_ratelimit.Utils.{unit_to_divider, max, add32, sub32}
use api_ratelimit.Request.{Request}
use api_ratelimit.Config.Limit.{RateLimit}
use api_ratelimit.Limiter.{
  new_rate_limit_info, nil_dereference, int63n, is_over_limit_with_local_cache,
  get_response_descriptor_status, is_over_limit_threshold_reached, BaseRateLimiter, World,
  DescriptorStatus,
}
use api_ratelimit.Limiter.CacheKey.{CacheKey}
use api_ratelimit.Limiter.Keys.{generate_cache_keys}
use api_ratelimit.Redis.Driver.{Pipeline, Replies, incrby, expire, get, Client}

-- fixed_cache_impl.go, fixedRateLimitCacheImpl
pub record FixedCache (L F R : Type 0) : Type 0 where
  pub client : Client R
  pub per_second_client : Option (Client R)
  pub stop_cache_key_increment_when_overlimit : Bool
  pub base : BaseRateLimiter L F

-- What `DoLimit` changes: the state of the limiter and the two servers.
pub record State (L R : Type 0) : Type 0 where
  pub world : World L
  pub redis : R
  pub per_second_redis : R

abbrev pub in_world : {L R A : Type 0} → Go (World L) A → Go (State L R) A
in_world m s = let (r, w) = m s.world in (r, record s { world = w })

-- What the check of one key in the local cache finds.
pub data Probe : Type 0 where
  no_limit over_in_cache not_in_cache : Probe

abbrev pub is_over_in_cache : Probe → Bool
is_over_in_cache over_in_cache = true
is_over_in_cache _ = false

-- Two pipelines, of the client and of the client for limits per second.
pub record Pipelines : Type 0 where
  pub main : Pipeline
  pub per_second : Pipeline

abbrev pub no_pipelines : Pipelines
no_pipelines = record { main = []; per_second = [] }

-- The commands of one key are put in front, since the loop goes on behind them.
abbrev pub prepend : Bool → Pipeline → Pipelines → Pipelines
prepend dedicated actions p =
    if dedicated
    then record p { per_second = actions ++ p.per_second }
    else record p { main = actions ++ p.main }

abbrev pub has_client : {R : Type 0} → Option (Client R) → Bool
has_client none = false
has_client (some c) = true

-- The replies written to their receivers.
unfoldable pub assign : Replies → List ℕ → List ℕ
assign [] xs = xs
assign ((i, v) ∷ rs) xs = assign rs (set xs i v)

abbrev pub or_nil : {L R A : Type 0} → Option A → Go (State L R) A
or_nil none = panic nil_dereference
or_nil (some a) = pure a

module _ {L F R : Type 0} (this : FixedCache L F R) where
  -- DoLimit: the check of one key in the local cache
  unfoldable pub probe : CacheKey → Go (State L R) Probe
  unfolding is_over_limit_with_local_cache
  probe key = if key.key == [] then pure no_limit else do
    hit ← in_world (is_over_limit_with_local_cache this.base key.key)
    pure (if hit then over_in_cache else not_in_cache)

  -- DoLimit: the first loop over the keys
  unfoldable pub probes : List CacheKey → Go (State L R) (List Probe)
  unfolding probe
  probes [] = pure []
  probes (k ∷ ks) = do p ← probe k; ps ← probes ks; pure (p ∷ ps)

  abbrev pub uses_per_second : CacheKey → Bool
  uses_per_second key = has_client this.per_second_client && key.per_second

  -- DoLimit and pipelineAppendtoGet: the commands that read the counts, from index `i` on
  unfoldable pub pipelines_to_get : ℕ → List CacheKey → List Probe → Pipelines
  pipelines_to_get i (k ∷ ks) (not_in_cache ∷ ps) =
      prepend (uses_per_second k) (get i k.key ∷ []) (pipelines_to_get (suc i) ks ps)
  pipelines_to_get i (k ∷ ks) (p ∷ ps) = pipelines_to_get (suc i) ks ps
  pipelines_to_get i _ _ = no_pipelines

  -- DoLimit: a call of `PipeDo`, made only for a pipeline that is not nil
  unfoldable pub run_main : Pipeline → Go (State L R) Replies
  run_main [] s = (returns [], s)
  run_main (a ∷ p) s =
      let (r, server) = this.client.pipe_do (a ∷ p) s.redis in (r, record s { redis = server })

  abbrev run_second : Option (Client R) → Pipeline → Go (State L R) Replies
  run_second none p s = (panics nil_dereference, s)
  run_second (some c) p s =
      let (r, server) = c.pipe_do p s.per_second_redis in
      (r, record s { per_second_redis = server })

  unfoldable pub run_per_second : Pipeline → Go (State L R) Replies
  run_per_second [] s = (returns [], s)
  run_per_second (a ∷ p) s = run_second this.per_second_client (a ∷ p) s

  -- DoLimit: both calls, and the slice of the results that the replies are written to
  unfoldable pub run_pipelines : Pipelines → List ℕ → Go (State L R) (List ℕ)
  unfolding run_main run_per_second assign
  run_pipelines p results = do
    replies ← run_main p.main
    replies' ← run_per_second p.per_second
    pure (assign replies' (assign replies results))

  -- DoLimit: the loop that finds the keys that this request takes over their limits
  unfoldable pub near_flags :
      List CacheKey → List (Option RateLimit) → List ℕ → ℕ → Go (State L R) (List Bool)
  unfolding is_over_limit_threshold_reached
  near_flags (k ∷ ks) (l ∷ ls) (count ∷ counts) hits = do
    near ← if k.key == [] then pure false else do
      limit ← or_nil l
      pure (
          is_over_limit_threshold_reached this.base limit
            (new_rate_limit_info l count (add32 count hits) 0 0))
    rest ← near_flags ks ls counts hits
    pure (near ∷ rest)
  near_flags _ _ _ hits = pure []

  -- DoLimit: the checks that stopCacheKeyIncrementWhenOverlimit adds
  unfoldable pub check_near :
      List CacheKey → List (Option RateLimit) → List Probe → ℕ → Go (State L R) (List Bool)
  unfolding near_flags run_pipelines pipelines_to_get
  check_near keys limits found hits =
      if this.stop_cache_key_increment_when_overlimit
        && (ltb 1 (length keys) && not (any is_over_in_cache found))
      then (do
        counts ← run_pipelines (pipelines_to_get 0 keys found) (replicate (length keys) 0)
        near_flags keys limits counts hits)
      else pure (replicate (length keys) false)

  -- DoLimit: hitsAddendForRedis after the checks
  unfoldable pub hits_for_redis : List Probe → List Bool → ℕ → ℕ
  hits_for_redis found near hits =
      if this.stop_cache_key_increment_when_overlimit
        && (any is_over_in_cache found || any (λ b. b) near)
      then 0
      else hits

  -- DoLimit: the time that a key is kept
  unfoldable pub expiration_seconds : RateLimit → Go (World L) ℕ
  unfolding int63n unit_to_divider
  expiration_seconds limit = do
    divider ← lift (unit_to_divider limit.limit.unit)
    jitter ←
        if ltb 0 this.base.expiration_jitter_max_seconds
        then int63n this.base.expiration_jitter_max_seconds
        else pure 0
    pure (divider + jitter)

  -- pipelineAppend
  abbrev pub pipeline_append : ℕ → GoString → ℕ → ℕ → Pipeline
  pipeline_append i key hits expiration = incrby i key hits ∷ expire key expiration ∷ []

  -- DoLimit: the loop that sets up the pipelines, from index `i` on
  unfoldable pub pipelines_from :
      ℕ
      → List CacheKey
      → List (Option RateLimit)
      → List Probe
      → List Bool
      → ℕ
      → ℕ
      → Go (State L R) Pipelines
  unfolding expiration_seconds
  pipelines_from i (k ∷ ks) (l ∷ ls) (not_in_cache ∷ ps) (near ∷ ns) hits redis_hits = do
    limit ← or_nil l
    expiration ← in_world (expiration_seconds limit)
    rest ← pipelines_from (suc i) ks ls ps ns hits redis_hits
    pure (
        prepend (uses_per_second k)
          (pipeline_append i k.key (if near then hits else redis_hits) expiration) rest)
  pipelines_from i (k ∷ ks) (l ∷ ls) (p ∷ ps) (near ∷ ns) hits redis_hits =
      pipelines_from (suc i) ks ls ps ns hits redis_hits
  pipelines_from i _ _ _ _ hits redis_hits = pure no_pipelines

  -- DoLimit: the last loop
  unfoldable pub statuses :
      List CacheKey
      → List (Option RateLimit)
      → List Probe
      → List ℕ
      → ℕ
      → Go (State L R) (List DescriptorStatus)
  unfolding get_response_descriptor_status
  statuses (k ∷ ks) (l ∷ ls) (p ∷ ps) (after ∷ rs) hits = do
    status ← in_world (
        get_response_descriptor_status this.base k.key
          (new_rate_limit_info l (sub32 after hits) after 0 0) (is_over_in_cache p) hits)
    rest ← statuses ks ls ps rs hits
    pure (status ∷ rest)
  statuses _ _ _ _ hits = pure []

  -- fixed_cache_impl.go, DoLimit
  unfoldable pub do_limit :
      Request → List (Option RateLimit) → Go (State L R) (List DescriptorStatus)
  do_limit request limits =
      let hits = max 1 request.hits_addend in
      do
        keys ← in_world (generate_cache_keys this.base.prefix request limits hits)
        found ← probes keys
        near ← check_near keys limits found hits
        pipelines ← pipelines_from 0 keys limits found near hits (hits_for_redis found near hits)
        results ← run_pipelines pipelines (replicate (length keys) 0)
        statuses keys limits found results hits
