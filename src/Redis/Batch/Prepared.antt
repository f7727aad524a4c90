-- ===== src/Redis/Batch/Prepared.antt =====
-- The first half of src/redis/fixed_cache_impl.go, DoLimit, for a batch of descriptors: the keys,
-- the local cache, and the commands.
use api_ratelimit.Common.{
  ltb, if◌then◌else◌, Bool-cases, length, replicate, All, GoString, ◌==◌, returns, ℕ, suc, ◌+◌, ◌%◌,
  ◌≡◌, refl, ap, inl, inr, Bool, true, false, not, ◌&&◌, Option, none, some, List, [], ◌∷◌, ◌++◌,
  map,
}
use api_ratelimit.Utils.{unit_to_divider}
use api_ratelimit.Config.Limit.{RateLimit}
use api_ratelimit.Limiter.{int63n, BaseRateLimiter, World}
use api_ratelimit.Limiter.CacheKey.{is_per_second_limit, CacheKey}
use api_ratelimit.Limiter.Decision.{nil_cache}
use api_ratelimit.Redis.Driver.{Pipeline, client_of, RunsInOrder, Radix, Client}
use api_ratelimit.Redis.FixedCache.{
  has_client, probe, probes, check_near, expiration_seconds, pipeline_append, pipelines_from,
  FixedCache, State, Probe, no_limit, not_in_cache, Pipelines,
}
use api_ratelimit.Redis.Single.{CountsKeys}
use api_ratelimit.Limiter.Batch.{
  limit_of, window, Known, store_of, IsLong, key_of, cache_key_of, key_of-IsLong, BatchItem, free,
  limited,
}

abbrev pub probe_of : BatchItem → Probe
probe_of (free d) = no_limit
probe_of (limited d l) = not_in_cache

abbrev pub not_near : BatchItem → Bool
not_near i = false

not_near_lem :
    (prefix domain : GoString) (now : ℕ) (items : List BatchItem)
    → replicate (length (map (cache_key_of prefix domain now) items)) false ≡ map not_near items
not_near_lem prefix domain now [] = refl
not_near_lem prefix domain now (i ∷ is) = ap (λ x. false ∷ x) (not_near_lem prefix domain now is)

-- A server of Redis and the client of it.
pub record Server (R : Type 0) : Type 0 where
  pub radix : Radix R
  pub law : CountsKeys radix
  pub at_once : law.span ≡ 0
  pub in_order : RunsInOrder radix
  pub implicit : Bool

abbrev pub client_for : {R : Type 0} → Server R → Client R
client_for s = client_of (record { radix = s.radix; implicit_pipelining = s.implicit })

abbrev pub second_client : {R : Type 0} → Bool → Server R → Option (Client R)
second_client true s = some (client_for s)
second_client false s = none

-- The same server.
abbrev pub same : Bool → Bool → Bool
same true c = c
same false c = not c

-- Two servers, and whether the second is used for limits per second.
module _ {L F R : Type 0} (base : BaseRateLimiter L F) (servers : Bool → Server R)
    (dedicated : Bool) (domain : GoString) (now hits : ℕ) where
  abbrev pub this : FixedCache L F R
  this = record {
    client = client_for (servers false);
    per_second_client = second_client dedicated (servers true);
    stop_cache_key_increment_when_overlimit = false;
    base = base;
  }

  abbrev pub item_key : BatchItem → CacheKey
  item_key = cache_key_of base.prefix domain now

  abbrev pub state : World L → R → R → State L R
  state w r r' = record { world = w; redis = r; per_second_redis = r' }

  probe-long :
      (key : GoString) (b : Bool) (w : World L) (r r' : R)
      → IsLong key
      → w.local ≡ none
      → probe this (record { key = key; per_second = b }) (state w r r')
        ≡ (returns not_in_cache, state w r r')
  unfolding probe ◌==◌
  probe-long key b w r r' (c, k, e) h = rw (e, nil_cache base (c ∷ k) w h) refl

  pub probes-batch :
      (items : List BatchItem) (w : World L) (r r' : R)
      → w.local ≡ none
      → probes this (map item_key items) (state w r r')
        ≡ (returns (map probe_of items), state w r r')
  unfolding probes probe ◌==◌
  probes-batch [] w r r' h = refl
  probes-batch (free d ∷ is) w r r' h = rw (probes-batch is w r r' h) refl
  probes-batch (limited d l ∷ is) w r r' h =
      rw
        (probe-long (key_of base.prefix domain now l d) (is_per_second_limit l.limit.unit) w r r'
          (key_of-IsLong base.prefix domain now l d) h)
        (rw (probes-batch is w r r' h) refl)

  pub check_near-batch :
      (items : List BatchItem) (s : State L R)
      → check_near this (map item_key items) (map limit_of items) (map probe_of items) hits s
        ≡ (returns (map not_near items), s)
  unfolding check_near
  check_near-batch items s = ap (λ x. (returns x, s)) (not_near_lem base.prefix domain now items)

  abbrev pub jittered : Bool
  jittered = ltb 0 base.expiration_jitter_max_seconds

  -- The time that a key is kept, and the random numbers that are left.
  abbrev pub seconds : RateLimit → (ℕ → ℕ) → ℕ
  seconds l jitter =
      window l + (if jittered then jitter 0 % base.expiration_jitter_max_seconds else 0)

  abbrev pub drawn : (ℕ → ℕ) → ℕ → ℕ
  drawn jitter = if jittered then (λ i. jitter (suc i)) else jitter

  expiration-batch :
      (l : RateLimit) (w : World L)
      → unit_to_divider l.limit.unit ≡ returns (window l)
      → expiration_seconds this l w
        ≡ (returns (seconds l w.jitter), record w { jitter = drawn w.jitter })
  unfolding expiration_seconds int63n
  expiration-batch l w h = elim (Bool-cases jittered) [
    | inl e ↦ rw (h, e) refl
    | inr e ↦ rw (h, e) refl
  ]

  -- The commands of the keys for one server, from index `i` on.
  unfoldable pub commands : Bool → ℕ → (ℕ → ℕ) → List BatchItem → Pipeline
  commands c i jitter [] = []
  commands c i jitter (free d ∷ is) = commands c (suc i) jitter is
  commands c i jitter (limited d l ∷ is) =
      let rest = commands c (suc i) (drawn jitter) is in
      if same (store_of dedicated l) c
      then pipeline_append this i (key_of base.prefix domain now l d) hits (seconds l jitter)
        ++ rest
      else rest

  abbrev pub both : ℕ → (ℕ → ℕ) → List BatchItem → Pipelines
  both i jitter items = record {
    main = commands false i jitter items;
    per_second = commands true i jitter items;
  }

  unfoldable pub all_drawn : (ℕ → ℕ) → List BatchItem → ℕ → ℕ
  all_drawn jitter [] = jitter
  all_drawn jitter (free d ∷ is) = all_drawn jitter is
  all_drawn jitter (limited d l ∷ is) = all_drawn (drawn jitter) is

  uses_second :
      (b : Bool) (s : Server R) (key : CacheKey)
      → has_client (second_client b s) && key.per_second ≡ b && key.per_second
  uses_second true s key = refl
  uses_second false s key = refl

  pub pipelines-batch :
      (i : ℕ) (items : List BatchItem) (w : World L) (r r' : R)
      → All Known items
      → pipelines_from this i
          (map item_key items)
          (map limit_of items)
          (map probe_of items)
          (map not_near items)
          hits
          hits
          (state w r r')
        ≡ (
          returns (both i w.jitter items),
          state (record w { jitter = all_drawn w.jitter items }) r r',
        )
  unfolding pipelines_from commands all_drawn
  pipelines-batch i [] w r r' known = refl
  pipelines-batch i (free d ∷ is) w r r' (known, rest) = pipelines-batch (suc i) is w r r' rest
  pipelines-batch i (limited d l ∷ is) w r r' ((unit_known, fits), rest) =
      rw
        (
          expiration-batch l w unit_known,
          pipelines-batch (suc i) is (record w { jitter = drawn w.jitter }) r r' rest,
          uses_second dedicated (servers true) (item_key (limited d l)),
        )
        (elim (Bool-cases (store_of dedicated l)) [ inl e ↦ rw e refl | inr e ↦ rw e refl ])
