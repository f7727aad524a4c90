-- ===== src/Redis/Quota.antt =====
-- A request with one descriptor, on the main client with no local cache
-- (src/redis/fixed_cache_impl.go, DoLimit).
use api_ratelimit.Limiter.Keys.{generate_cache_keys}
use api_ratelimit.Request.{Descriptor}
use api_ratelimit.Limiter.Decision.{decision}
use api_ratelimit.Config.Limit.{RateLimit}
use api_ratelimit.Common.{
  if◌then◌else◌, GoString, ◌==◌, Outcome, returns, ℕ, suc, ◌+◌, ◌-◌, ◌%◌, ◌≤◌, ◌<◌, ◌≡◌, refl, ap,
  ◌∙◌, Bool, none, some, List, [], ◌∷◌, arith,
}
use api_ratelimit.Utils.{unit_to_divider, max, uint32_mod}
use api_ratelimit.Limiter.{BaseRateLimiter, World, DescriptorStatus}
use api_ratelimit.Limiter.CacheKey.{generate_cache_key, CacheKey}
use api_ratelimit.Redis.Driver.{do_each, RunsInOrder, Radix}
use api_ratelimit.Redis.FixedCache.{
  pipeline_append, statuses, do_limit, FixedCache, State, not_in_cache,
}
use api_ratelimit.Redis.Single.{count-do_each, CountsKeys}
use api_ratelimit.Redis.Keyed.{
  backend, keyed, counted_once, only, state, not_cached, no_check, all_hits_sent, prepare, decided,
  statuses_redis, kept, Prepared,
}

module _ {L F R : Type 0} (base : BaseRateLimiter L F) (radix : Radix R) (law : CountsKeys radix)
    (in_order : RunsInOrder radix) (implicit stop : Bool) (c : ℕ) (k : GoString) (b : Bool)
    (limit : RateLimit) (domain : GoString) (descriptor : Descriptor) (n d : ℕ) (w : World L)
    (r r' : R) where
  abbrev this_cache : FixedCache L F R
  this_cache = backend base radix law in_order implicit stop

  abbrev one_key : List CacheKey
  one_key = only base radix law in_order implicit stop c k b limit

  abbrev one_state : World L → R → R → State L R
  one_state = state base radix law in_order implicit stop c k b limit

  abbrev pub answer : Outcome (List DescriptorStatus) × State L R
  answer =
      do_limit this_cache
        (record { domain = domain; descriptors = descriptor ∷ []; hits_addend = n })
        (some limit ∷ []) (one_state w r r')

  abbrev hits : ℕ
  hits = max 1 n

  -- The world after the cache keys.
  abbrev entered : World L
  entered = record w {
    calls = (limit.stats.total_hits, max 1 n) ∷ w.calls;
    time = λ i. w.time (suc i);
  }

  steps :
      (p : Prepared base radix law in_order implicit stop c k b limit hits d entered r r')
      → w.local ≡ none
      → generate_cache_key base.prefix domain descriptor (some limit) (w.time 0)
        ≡ returns (keyed base radix law in_order implicit stop (c ∷ k) b)
      → law.count r (c ∷ k) + hits < uint32_mod
      → answer
        ≡ statuses this_cache one_key
            (some limit ∷ [])
            (not_in_cache ∷ [])
            ((law.count r (c ∷ k) + hits) ∷ [])
            hits
            (one_state p.later
              (do_each radix (pipeline_append this_cache 0 (c ∷ k) hits p.seconds) r).1
              r')
  unfolding do_limit generate_cache_keys
  steps p no_cache key_known fits =
      rw
        (
          key_known,
          not_cached base radix law in_order implicit stop c k b limit entered r r' no_cache,
          no_check base radix law in_order implicit stop c k b limit hits (one_state entered r r'),
          all_hits_sent base radix law in_order implicit stop c k b limit hits,
          p.prepared,
          counted_once base radix law in_order implicit stop c k hits p.seconds p.later r r' fits,
        )
        refl

  -- For a request with one descriptor whose limit has a known unit and whose cache key is not
  -- empty, with no local cache, no client for limits per second, counts and limit within 32 bits,
  -- and a server that runs commands in order and counts, which keeps a key over a time of at most
  -- the window if EXPIRE gives it at least that time: the count of the key with the hits of the
  -- request decides the status, and afterwards the key has that count and the others keep theirs.
  -- This is so also for a key that is over its limit already, and also with
  -- STOP_CACHE_KEY_INCREMENT_WHEN_OVERLIMIT.
  pub do_limit_quota :
      w.local ≡ none
      → unit_to_divider limit.limit.unit ≡ returns d
      → generate_cache_key base.prefix domain descriptor (some limit) (w.time 0)
        ≡ returns (keyed base radix law in_order implicit stop (c ∷ k) b)
      → law.count r (c ∷ k) + max 1 n < uint32_mod
      → limit.limit.requests_per_unit < uint32_mod
      → law.span ≤ d
      → (answer.0
          ≡ returns (decision limit (law.count r (c ∷ k) + max 1 n) (d - w.time 1 % d) ∷ []))
        × ((j : GoString)
            → law.count answer.1.redis j
              ≡ (if (c ∷ k) == j then law.count r (c ∷ k) + max 1 n else law.count r j))
  do_limit_quota no_cache unit_known key_known fits rfits covered =
      let p =
        prepare base radix law in_order implicit stop c k b limit hits d entered r r' unit_known in
      let count = law.count r (c ∷ k) in
      let computed = steps p no_cache key_known fits in
      let sent = do_each radix (pipeline_append this_cache 0 (c ∷ k) hits p.seconds) r in
      (
        ap (λ x. x.0) computed
            ∙ (decided base radix law in_order implicit stop c k b limit count hits d
                  (one_state p.later sent.1 r') unit_known fits rfits
                ∙ ap (λ t. returns (decision limit (count + hits) (d - t 0 % d) ∷ [])) p.same_time),
        λ j.
            ap (λ x. law.count x.1.redis j) computed
            ∙ (ap (λ x. law.count x j)
                  (statuses_redis base radix law in_order implicit stop c k b limit hits
                    (count + hits) (one_state p.later sent.1 r'))
                ∙ count-do_each radix law 0 (c ∷ k) hits p.seconds r j fits
                    (omega (arith, covered, p.long))),
      )

  -- Such a call leaves no local cache, and reads the clock twice.
  pub do_limit_world :
      w.local ≡ none
      → unit_to_divider limit.limit.unit ≡ returns d
      → generate_cache_key base.prefix domain descriptor (some limit) (w.time 0)
        ≡ returns (keyed base radix law in_order implicit stop (c ∷ k) b)
      → law.count r (c ∷ k) + max 1 n < uint32_mod
      → (answer.1.world.local ≡ none) × (answer.1.world.time ≡ (λ i. w.time (suc (suc i))))
  do_limit_world no_cache unit_known key_known fits =
      let p =
        prepare base radix law in_order implicit stop c k b limit hits d entered r r' unit_known in
      let computed = steps p no_cache key_known fits in
      let sent = do_each radix (pipeline_append this_cache 0 (c ∷ k) hits p.seconds) r in
      let (no_local, later) =
        kept base radix law in_order implicit stop c k b limit (law.count r (c ∷ k)) hits d
          (one_state p.later sent.1 r') unit_known fits (p.same_local ∙ no_cache) in
      (
        ap (λ x. x.1.world.local) computed ∙ no_local,
        ap (λ x. x.1.world.time) computed
            ∙ (later ∙ ap (λ (t : ℕ → ℕ). λ i. t (suc i)) p.same_time),
      )
