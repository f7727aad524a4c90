-- ===== src/Limiter/Batch/Keys.antt =====
-- `GenerateCacheKeys` of src/limiter/base_limiter.go on a batch.
use api_ratelimit.Common.{
  nat_eq, length, All, length-map, GoString, returns, ℕ, suc, ◌≡◌, refl, true, List, [], ◌∷◌, map,
  arith,
}
use api_ratelimit.Utils.{max}
use api_ratelimit.Request.{Request}
use api_ratelimit.Stats.{Calls}
use api_ratelimit.Limiter.{unix_now, BaseRateLimiter, World}
use api_ratelimit.Limiter.CacheKey.{generate_cache_key}
use api_ratelimit.Limiter.Keys.{keys_from, generate_cache_keys}
use api_ratelimit.Limiter.Batch.{
  descriptor_of, limit_of, Known, cache_key_of, BatchItem, free, limited,
}

-- The counters of the limits that a request hits.
unfoldable pub counted_calls : ℕ → List BatchItem → Calls → Calls
counted_calls hits [] calls = calls
counted_calls hits (free d ∷ is) calls = counted_calls hits is calls
counted_calls hits (limited d l ∷ is) calls =
    counted_calls hits is ((l.stats.total_hits, hits) ∷ calls)

same_length :
    (items : List BatchItem)
    → nat_eq (length (map descriptor_of items)) (length (map limit_of items)) ≡ true
same_length items = ground (arith, length-map descriptor_of items, length-map limit_of items)

-- The world after the cache keys.
abbrev pub entered : {L : Type 0} → ℕ → List BatchItem → World L → World L
entered hits items w = record w {
  calls = counted_calls hits items w.calls;
  time = λ i. w.time (suc i);
}

-- The request of a batch.
abbrev pub batch : GoString → ℕ → List BatchItem → Request
batch domain n items = record {
  domain = domain;
  descriptors = map descriptor_of items;
  hits_addend = n;
}

module _ {L F : Type 0} (base : BaseRateLimiter L F) (domain : GoString) where
  keys-batch :
      (now hits : ℕ) (items : List BatchItem) (w : World L)
      → All Known items
      → keys_from base.prefix domain now hits (map descriptor_of items) (map limit_of items) w ≡ (
        returns (map (cache_key_of base.prefix domain now) items),
        record w { calls = counted_calls hits items w.calls },
      )
  unfolding keys_from generate_cache_key counted_calls
  keys-batch now hits [] w known = refl
  keys-batch now hits (free d ∷ is) w (known, rest) = rw (keys-batch now hits is w rest) refl
  keys-batch now hits (limited d l ∷ is) w ((unit_known, fits), rest) = rw unit_known (
      rw (keys-batch now hits is (record w { calls = (l.stats.total_hits, hits) ∷ w.calls }) rest)
        refl)

  pub generated :
      (n : ℕ) (items : List BatchItem) (w : World L)
      → All Known items
      → generate_cache_keys base.prefix (batch domain n items) (map limit_of items) (max 1 n) w ≡ (
        returns (map (cache_key_of base.prefix domain (w.time 0)) items),
        entered (max 1 n) items w,
      )
  unfolding generate_cache_keys unix_now
  generated n items w known =
      rw (same_length items)
        (keys-batch (w.time 0) (max 1 n) items (record w { time = λ i. w.time (suc i) }) known)
