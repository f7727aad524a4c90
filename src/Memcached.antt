-- ===== src/Memcached.antt =====
-- src/memcached/client.go, src/memcached/stats_collecting_client.go and src/memcached/cache_impl.go.
-- The library that talks to the servers is a parameter, and so is its way of reading a number.
pub mod Stats
pub mod Increase
pub mod Servers
pub mod Fetch
pub mod Batch
pub mod Pool
use api_ratelimit.Common.Strings.{format_uint}
use api_ratelimit.Common.{
  ltb, if◌then◌else◌, GoString, ◌==◌, Go, pure, panic, lift, ◌>>=◌, ◌>>◌, modify, returns, Dict,
  lookup, ℕ, ◌+◌, ◌%◌, Bool, false, ◌||◌, Option, none, some, List, [], ◌∷◌, ◌++◌,
}
use api_ratelimit.Utils.{unit_to_divider, max, uint32_mod, add32}
use api_ratelimit.Request.{Request}
use api_ratelimit.Config.Limit.{RateLimit}
use api_ratelimit.Limiter.{
  new_rate_limit_info, nil_dereference, int63n, is_over_limit_with_local_cache,
  get_response_descriptor_status, BaseRateLimiter, World, DescriptorStatus,
}
use api_ratelimit.Limiter.CacheKey.{CacheKey}
use api_ratelimit.Limiter.Keys.{generate_cache_keys}

-- The errors that the code tells apart: memcache.ErrCacheMiss, memcache.ErrNotStored, all others.
pub data Failure : Type 0 where
  cache_miss not_stored other_failure : Failure

-- memcache.Item, the fields that the code sets
pub record Item : Type 0 where
  pub key : GoString
  pub value : GoString
  pub expiration : ℕ

-- client.go, Client: the answer of each call and what it leaves. The new value of `Increment` is not
-- used by the code.
pub record Client (M : Type 0) : Type 0 where
  pub get_multi : List GoString → M → (Dict GoString × Option Failure) × M
  pub increment : GoString → ℕ → M → Option Failure × M
  pub add_item : Item → M → Option Failure × M

-- The call of `increaseAsync` that a request leaves behind.
pub record Job : Type 0 where
  pub keys : List CacheKey
  pub over : List Bool
  pub limits : List (Option RateLimit)
  pub hits : ℕ

-- What `DoLimit` changes: the state of the limiter, the servers, and the jobs not yet done, in order.
pub record State (L M : Type 0) : Type 0 where
  pub world : World L
  pub server : M
  pub pending : List Job

-- cache_impl.go, rateLimitMemcacheImpl. `parse_value` is `strconv.ParseInt` to 32 bits with the
-- conversion to uint32; `auto_flush` is AutoFlushForIntegrationTests.
pub record MemcacheImpl (L F M : Type 0) : Type 0 where
  pub client : Client M
  pub parse_value : GoString → Option ℕ
  pub auto_flush : Bool
  pub base : BaseRateLimiter L F

abbrev pub in_world : {L M A : Type 0} → Go (World L) A → Go (State L M) A
in_world m s = let (r, w) = m s.world in (r, record s { world = w })

abbrev pub call : {L M A : Type 0} → (M → A × M) → Go (State L M) A
call f s = let (a, m) = f s.server in (returns a, record s { server = m })

module _ {L F M : Type 0} (this : MemcacheImpl L F M) where
  -- DoLimit: the check of one key in the local cache
  unfoldable pub is_over : CacheKey → Go (State L M) Bool
  unfolding is_over_limit_with_local_cache
  is_over key =
      if key.key == []
      then pure false
      else in_world (is_over_limit_with_local_cache this.base key.key)

  -- DoLimit: the first loop
  unfoldable pub over_flags : List CacheKey → Go (State L M) (List Bool)
  unfolding is_over
  over_flags [] = pure []
  over_flags (k ∷ ks) = do over ← is_over k; rest ← over_flags ks; pure (over ∷ rest)

  -- DoLimit: keysToGet
  unfoldable pub keys_to_get : List CacheKey → List Bool → List GoString
  keys_to_get (k ∷ ks) (over ∷ rest) =
      let more = keys_to_get ks rest in if k.key == [] || over then more else k.key ∷ more
  keys_to_get _ _ = []

  -- DoLimit: the fetch, whose error is only logged
  unfoldable pub fetch : List GoString → Go (State L M) (Dict GoString)
  fetch [] = pure []
  fetch (k ∷ ks) = do answer ← call (this.client.get_multi (k ∷ ks)); pure answer.0

  -- DoLimit: limitBeforeIncrease
  unfoldable pub count_before : Dict GoString → GoString → ℕ
  count_before values key = elim (lookup key values) [
    | none ↦ 0
    | some raw ↦ elim (this.parse_value raw) [ none ↦ 0 | some decoded ↦ decoded ]
  ]

  -- DoLimit: the second loop
  unfoldable pub statuses :
      Dict GoString
      → List CacheKey
      → List (Option RateLimit)
      → List Bool
      → ℕ
      → Go (State L M) (List DescriptorStatus)
  unfolding count_before get_response_descriptor_status
  statuses values (k ∷ ks) (l ∷ ls) (over ∷ rest) hits =
      let before = count_before values k.key in
      do
        status ← in_world (
            get_response_descriptor_status this.base k.key
              (new_rate_limit_info l before (add32 before hits) 0 0) over hits)
        more ← statuses values ks ls rest hits
        pure (status ∷ more)
  statuses values _ _ _ hits = pure []

  -- increaseAsync: the time that a key is kept, an int32 by its bits
  unfoldable pub expiration_seconds : RateLimit → Go (World L) ℕ
  unfolding int63n unit_to_divider
  expiration_seconds limit = do
    divider ← lift (unit_to_divider limit.limit.unit)
    jitter ←
        if ltb 0 this.base.expiration_jitter_max_seconds
        then int63n this.base.expiration_jitter_max_seconds
        else pure 0
    pure ((divider + jitter) % uint32_mod)

  -- increaseAsync: what follows an `Add`
  unfoldable pub after_add : GoString → ℕ → Option Failure → Go (State L M) (Option Failure)
  after_add key hits (some not_stored) = call (this.client.increment key hits)
  after_add key hits (some cache_miss) = pure (some cache_miss)
  after_add key hits (some other_failure) = pure (some other_failure)
  after_add key hits none = pure none

  -- increaseAsync: what follows an `Increment`
  unfoldable pub after_increment :
      GoString → Option RateLimit → ℕ → Option Failure → Go (State L M) (Option Failure)
  unfolding after_add expiration_seconds
  after_increment key none hits (some cache_miss) = panic nil_dereference
  after_increment key (some limit) hits (some cache_miss) = do
    expiration ← in_world (expiration_seconds limit)
    stored ← call (
        this.client.add_item
          (record { key = key; value = format_uint hits; expiration = expiration }))
    after_add key hits stored
  after_increment key l hits (some not_stored) = pure (some not_stored)
  after_increment key l hits (some other_failure) = pure (some other_failure)
  after_increment key l hits none = pure none

  -- increaseAsync: the body of the loop, for a key that is counted. It ends with the error that is
  -- logged, if there is one.
  unfoldable pub increase_key : GoString → Option RateLimit → ℕ → Go (State L M) (Option Failure)
  unfolding after_increment
  increase_key key l hits = do
    failure ← call (this.client.increment key hits)
    after_increment key l hits failure

  -- increaseAsync
  unfoldable pub increase :
      List CacheKey
      → List Bool
      → List (Option RateLimit)
      → ℕ
      → Go (State L M) (List (Option Failure))
  unfolding increase_key
  increase (k ∷ ks) (over ∷ rest) (l ∷ ls) hits = do
    first ← if k.key == [] || over then pure none else increase_key k.key l hits
    more ← increase ks rest ls hits
    pure (first ∷ more)
  increase _ _ _ hits = pure []

  -- runAsync: the job is left to be done.
  unfoldable pub run_async : Job → Go (State L M) (Unit {0})
  run_async job = modify (λ s. record s { pending = s.pending ++ job ∷ [] })

  unfoldable pub run_jobs : List Job → Go (State L M) (Unit {0})
  unfolding increase
  run_jobs [] = modify (λ s. record s { pending = [] })
  run_jobs (j ∷ js) = do increase j.keys j.over j.limits j.hits; run_jobs js

  -- cache_impl.go, Flush
  unfoldable pub flush : Go (State L M) (Unit {0})
  unfolding run_jobs
  flush s = run_jobs s.pending s

  -- cache_impl.go, DoLimit
  unfoldable pub do_limit :
      Request → List (Option RateLimit) → Go (State L M) (List DescriptorStatus)
  unfolding over_flags keys_to_get fetch statuses run_async flush generate_cache_keys
  do_limit request limits =
      let hits = max 1 request.hits_addend in
      do
        keys ← in_world (generate_cache_keys this.base.prefix request limits hits)
        over ← over_flags keys
        values ← fetch (keys_to_get keys over)
        answer ← statuses values keys limits over hits
        run_async (record { keys = keys; over = over; limits = limits; hits = hits })
        if this.auto_flush then flush else pure tt
        pure answer
