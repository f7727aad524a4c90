-- ===== src/Redis/Batch/Admits.antt =====
-- `DoLimit` on a batch of descriptors and the specification (src/redis/fixed_cache_impl.go).
use api_ratelimit.Limiter.Batch.Statuses.{decide-Decided}
use api_ratelimit.Limiter.Decision.{before_lem}
use api_ratelimit.Common.{
  length, All, length-map, GoString, Outcome, returns, ℕ, suc, ◌+◌, ◌≡◌, refl, ap, ◌∙◌, Bool, true,
  false, none, List, [], ◌∷◌, map,
}
use api_ratelimit.Utils.{max, sub32}
use api_ratelimit.Limiter.{
  generate_response_descriptor_status, get_response_descriptor_status, BaseRateLimiter, World,
  DescriptorStatus,
}
use api_ratelimit.Limiter.CacheKey.{CacheKey}
use api_ratelimit.Redis.FixedCache.{hits_for_redis, statuses, do_limit, FixedCache, State}
use api_ratelimit.Limiter.Batch.Keys.{entered, batch, generated}
use api_ratelimit.Limiter.Batch.{
  limit_of, Known, Stores, bump_at, store_of, key_of, cache_key_of, admit, bumped, key_of-IsLong,
  BatchItem, free, limited,
}
use api_ratelimit.Redis.Batch.Prepared.{
  probe_of, this, probes-batch, check_near-batch, all_drawn, pipelines-batch, Server,
}
use api_ratelimit.Redis.Batch.Sent.Replies.{results}
use api_ratelimit.Redis.Batch.Sent.Room.{HasRoom, room_now, rest-HasRoom, bump_at-HasRoom}
use api_ratelimit.Redis.Batch.Sent.{run-batch, run_pipelines-batch, Ran}

module _ {L F R : Type 0} (base : BaseRateLimiter L F) (servers : Bool → Server R)
    (dedicated : Bool) (domain : GoString) (now hits : ℕ) where
  abbrev cache : FixedCache L F R
  cache = this base servers dedicated domain now hits

  abbrev keys : List BatchItem → List CacheKey
  keys items = map (cache_key_of base.prefix domain now) items

  -- The last loop gives the statuses of the specification.
  statuses-batch :
      (stores : Stores) (items : List BatchItem) (w : World L) (r r' : R)
      → All Known items
      → HasRoom hits stores items
      → w.local ≡ none
      → (later : World L) × (statuses cache
            (keys items)
            (map limit_of items)
            (map probe_of items)
            (results base.prefix domain now dedicated hits stores items)
            hits
            (record { world = w; redis = r; per_second_redis = r' })
          ≡ (
            returns (admit base.prefix domain now dedicated hits stores w.time items).0,
            record { world = later; redis = r; per_second_redis = r' },
          ))
  unfolding statuses results admit get_response_descriptor_status
      generate_response_descriptor_status
  statuses-batch stores [] w r r' known room h = (w, refl)
  statuses-batch stores (free d ∷ is) w r r' (known, rest) room h =
      let (later, e) =
        statuses-batch stores is w r r' rest (rest-HasRoom hits stores (free d) is room) h in
      (later, rw e refl)
  statuses-batch stores (limited d l ∷ is) w r r' ((unit_known, rfits), rest) room h =
      let k = key_of base.prefix domain now l d in
      let b = store_of dedicated l in
      let a = stores b k in
      let fits = room_now hits a (length is) (room b k) in
      let one =
        decide-Decided base hits k l (sub32 (a + hits) hits) (a + hits) a w
          (key_of-IsLong base.prefix domain now l d) unit_known rfits fits (before_lem a hits fits)
          refl h in
      let (later, e) =
        statuses-batch (bump_at stores b k hits) is one.later r r' rest
          (bump_at-HasRoom hits stores b k (limited d l) is room) one.no_cache in
      (later, rw one.decided (rw e (rw one.ticked refl)))

module _ {L F R : Type 0} (base : BaseRateLimiter L F) (servers : Bool → Server R)
    (dedicated : Bool) (domain : GoString) (n : ℕ) where
  abbrev hits : ℕ
  hits = max 1 n

  abbrev pub answer_batch : List BatchItem → State L R → Outcome (List DescriptorStatus) × State L R
  answer_batch items s =
      do_limit (this base servers dedicated domain 0 0) (batch domain n items) (map limit_of items)
        s

  -- The counters of both servers.
  abbrev pub stores_of : R → R → Stores
  stores_of r r' false = (servers false).law.count r
  stores_of r r' true = (servers true).law.count r'

  -- The world after the commands are set up.
  abbrev sending : List BatchItem → World L → World L
  sending items w = record (entered hits items w) {
    jitter = all_drawn base servers dedicated domain (w.time 0) hits w.jitter items;
  }

  steps :
      (stores : Stores) (items : List BatchItem) (w : World L) (r r' : R)
      (ran₁ : Ran base servers dedicated domain (w.time 0) hits false 0 w.jitter stores items r)
      (ran₂ : Ran base servers dedicated domain (w.time 0) hits true 0 w.jitter stores items r')
      → All Known items
      → w.local ≡ none
      → answer_batch items (record { world = w; redis = r; per_second_redis = r' })
        ≡ statuses
            (this base servers dedicated domain (w.time 0) hits)
            (map (cache_key_of base.prefix domain (w.time 0)) items)
            (map limit_of items)
            (map probe_of items)
            (results base.prefix domain (w.time 0) dedicated hits stores items)
            hits
            (record { world = sending items w; redis = ran₁.final; per_second_redis = ran₂.final })
  unfolding do_limit hits_for_redis
  steps stores items w r r' ran₁ ran₂ known no_cache =
      let now = w.time 0 in
      let w₁ = entered hits items w in
      let s₁ : State L R = record { world = w₁; redis = r; per_second_redis = r' } in
      rw
        (
          generated base domain n items w known,
          probes-batch base servers dedicated domain now hits items w₁ r r' no_cache,
          check_near-batch base servers dedicated domain now hits items s₁,
          pipelines-batch base servers dedicated domain now hits 0 items w₁ r r' known,
          length-map (cache_key_of base.prefix domain now) items,
          run_pipelines-batch base servers dedicated domain now hits w.jitter stores items
              (record { world = sending items w; redis = r; per_second_redis = r' }) ran₁ ran₂,
        )
        refl

  counts-admit :
      (now : ℕ) (stores : Stores) (clock : ℕ → ℕ) (items : List BatchItem)
      → bumped base.prefix domain now dedicated hits stores items
        ≡ (admit base.prefix domain now dedicated hits stores clock items).1
  unfolding bumped admit
  counts-admit now stores clock [] = refl
  counts-admit now stores clock (free d ∷ is) = counts-admit now stores clock is
  counts-admit now stores clock (limited d l ∷ is) =
      counts-admit now
        (bump_at stores (store_of dedicated l) (key_of base.prefix domain now l d) hits)
        (λ i. clock (suc i)) is

  final_lem :
      {now : ℕ} {stores : Stores} {jitter : ℕ → ℕ} {items : List BatchItem} {r r' : R}
      (ran₁ : Ran base servers dedicated domain now hits false 0 jitter stores items r)
      (ran₂ : Ran base servers dedicated domain now hits true 0 jitter stores items r') (b : Bool)
      → stores_of ran₁.final ran₂.final b
        ≡ bumped base.prefix domain now dedicated hits stores items b
  final_lem ran₁ ran₂ true = ran₂.counts
  final_lem ran₁ ran₂ false = ran₁.counts

  -- A request with any number of descriptors, some of them without a limit and some perhaps with the
  -- same key, with or without a client for limits per second: with known units, room for the hits
  -- within 32 bits, no local cache, no exemption of over-limit keys, and servers that count and run
  -- commands in order, the statuses and the counters of both servers afterwards are those of the
  -- specification that takes the descriptors one at a time.
  pub do_limit-admits :
      (items : List BatchItem) (w : World L) (r r' : R)
      → All Known items
      → w.local ≡ none
      → HasRoom (max 1 n) (stores_of r r') items
      → (let (statuses, final) =
            admit base.prefix domain
              (w.time 0)
              dedicated
              (max 1 n)
              (stores_of r r')
              (λ i. w.time (suc i))
              items in
          let (answer, s) =
            answer_batch items (record { world = w; redis = r; per_second_redis = r' }) in
          (answer ≡ returns statuses)
          × ((b : Bool) → stores_of s.redis s.per_second_redis b ≡ final b))
  do_limit-admits items w r r' known no_cache room =
      let now = w.time 0 in
      let stores = stores_of r r' in
      let ran₁ =
        run-batch base servers dedicated domain now hits false 0 w.jitter stores items r room
          refl in
      let ran₂ =
        run-batch base servers dedicated domain now hits true 0 w.jitter stores items r' room
          refl in
      let (later, e) =
        statuses-batch base servers dedicated domain now hits stores items (sending items w)
          ran₁.final ran₂.final known room no_cache in
      let whole = steps stores items w r r' ran₁ ran₂ known no_cache ∙ e in
      let same_counts = counts-admit now stores (λ i. w.time (suc i)) items in
      (
        ap (λ x. x.0) whole,
        λ b.
            ap (λ x. stores_of x.1.redis x.1.per_second_redis b) whole
            ∙ (final_lem ran₁ ran₂ b ∙ ap (λ f. f b) same_counts),
      )
