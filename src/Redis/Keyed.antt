-- ===== src/Redis/Keyed.antt =====
-- The steps of `DoLimit` for one key on the main client, with no local cache
-- (src/redis/fixed_cache_impl.go).
use api_ratelimit.Limiter.Decision.{
  decision, remembered, counted_decision, counted_remembers, counted_time, nil_cache, before_lem,
}
use api_ratelimit.Config.Limit.{RateLimit}
use api_ratelimit.Common.{
  ltb, Bool-cases, GoString, ◌==◌, Outcome-cases, Outcome, returns, ℕ, suc, ◌+◌, ◌-◌, ◌%◌, ◌≤◌, ◌<◌,
  ◌≡◌, refl, ap, ◌∙◌, inl, inr, Bool, false, none, some, List, [], ◌∷◌, arith,
}
use api_ratelimit.Utils.{unit_to_divider, uint32_mod, sub32}
use api_ratelimit.Limiter.{
  new_rate_limit_info, int63n, get_response_descriptor_status, BaseRateLimiter, World,
  DescriptorStatus,
}
use api_ratelimit.Limiter.CacheKey.{CacheKey}
use api_ratelimit.Redis.Driver.{do_each, client_of, RunsInOrder, pipe_do-implicit, Radix}
use api_ratelimit.Redis.FixedCache.{
  assign, probes, run_pipelines, check_near, hits_for_redis, pipeline_append, pipelines_from,
  statuses, FixedCache, State, not_in_cache,
}
use api_ratelimit.Redis.Single.{do_each-increment, CountsKeys}

module _ {L F R : Type 0} (base : BaseRateLimiter L F) (radix : Radix R) (law : CountsKeys radix)
    (in_order : RunsInOrder radix) (implicit stop : Bool) where
  abbrev pub backend : FixedCache L F R
  backend = record {
    client = client_of (record { radix = radix; implicit_pipelining = implicit });
    per_second_client = none;
    stop_cache_key_increment_when_overlimit = stop;
    base = base;
  }

  abbrev pub keyed : GoString → Bool → CacheKey
  keyed k b = record { key = k; per_second = b }

  -- The pipeline of one key, and its result.
  pub counted_once :
      (c : ℕ) (k : GoString) (n t : ℕ) (w : World L) (r r' : R)
      → law.count r (c ∷ k) + n < uint32_mod
      → run_pipelines backend
          (record { main = pipeline_append backend 0 (c ∷ k) n t; per_second = [] })
          (0 ∷ [])
          (record { world = w; redis = r; per_second_redis = r' })
        ≡ (
          returns ((law.count r (c ∷ k) + n) ∷ []),
          record {
            world = w;
            redis = (do_each radix (pipeline_append backend 0 (c ∷ k) n t) r).1;
            per_second_redis = r';
          },
        )
  unfolding run_pipelines assign
  counted_once c k n t w r r' fits =
      rw (pipe_do-implicit radix implicit (pipeline_append backend 0 (c ∷ k) n t) r in_order)
        (rw (do_each-increment radix law 0 (c ∷ k) n t r fits) refl)

  module _ (c : ℕ) (k : GoString) (b : Bool) (limit : RateLimit) where
    abbrev pub only : List CacheKey
    only = keyed (c ∷ k) b ∷ []

    abbrev pub state : World L → R → R → State L R
    state w r r' = record { world = w; redis = r; per_second_redis = r' }

    pub not_cached :
        (w : World L) (r r' : R)
        → w.local ≡ none
        → probes backend only (state w r r') ≡ (returns (not_in_cache ∷ []), state w r r')
    unfolding probes ◌==◌
    not_cached w r r' h = rw (nil_cache base (c ∷ k) w h) refl

    pub no_check :
        (hits : ℕ) (s : State L R)
        → check_near backend only (some limit ∷ []) (not_in_cache ∷ []) hits s
          ≡ (returns (false ∷ []), s)
    unfolding check_near
    no_check hits s = elim (Bool-cases stop) [
      | inl e ↦ rw (e, check_near) refl
      | inr e ↦ rw (e, check_near) refl
    ]

    pub all_hits_sent :
        (hits : ℕ) → hits_for_redis backend (not_in_cache ∷ []) (false ∷ []) hits ≡ hits
    unfolding hits_for_redis
    all_hits_sent hits = ground arith

    -- The commands of the key, and the world after them.
    pub record Prepared (hits d : ℕ) (w : World L) (r r' : R) : Type 0 where
      pub seconds : ℕ
      pub later : World L
      pub prepared :
          pipelines_from backend 0 only
            (some limit ∷ [])
            (not_in_cache ∷ [])
            (false ∷ [])
            hits
            hits
            (state w r r')
          ≡ (
            returns
                (record { main = pipeline_append backend 0 (c ∷ k) hits seconds; per_second = [] }),
            state later r r',
          )
      pub long : d ≤ seconds
      pub same_time : later.time ≡ w.time
      pub same_local : later.local ≡ w.local

    pub prepare :
        (hits d : ℕ) (w : World L) (r r' : R)
        → unit_to_divider limit.limit.unit ≡ returns d
        → Prepared hits d w r r'
    unfolding pipelines_from int63n
    prepare hits d w r r' h = elim (Bool-cases (ltb 0 base.expiration_jitter_max_seconds)) [
      | inl e ↦ record {
        seconds = d + w.jitter 0 % base.expiration_jitter_max_seconds;
        later = record w { jitter = λ i. w.jitter (suc i) };
        prepared = rw (h, e) refl;
        long = omega arith;
        same_time = refl;
        same_local = refl;
      }
      | inr e ↦ record {
        seconds = d + 0;
        later = w;
        prepared = rw (h, e) refl;
        long = omega arith;
        same_time = refl;
        same_local = refl;
      }
    ]

    pub decided :
        (a hits d : ℕ) (s : State L R)
        → unit_to_divider limit.limit.unit ≡ returns d
        → a + hits < uint32_mod
        → limit.limit.requests_per_unit < uint32_mod
        → (statuses backend only (some limit ∷ []) (not_in_cache ∷ []) ((a + hits) ∷ []) hits s).0
          ≡ returns (decision limit (a + hits) (d - s.world.time 0 % d) ∷ [])
    unfolding statuses
    decided a hits d s h fits rfits =
        rw (before_lem a hits fits)
          (rw (counted_decision base c k limit a hits d s.world h fits rfits) refl)

    pub statuses_redis :
        (hits : ℕ) (results : ℕ) (s : State L R)
        → (statuses backend only
            (some limit ∷ [])
            (not_in_cache ∷ [])
            (results ∷ [])
            hits
            s).1.redis
          ≡ s.redis
    unfolding statuses
    statuses_redis hits results s =
        elim (Outcome-cases
          (get_response_descriptor_status base (c ∷ k)
            (new_rate_limit_info (some limit) (sub32 results hits) results 0 0) false hits
            s.world).0) [ inl (a, e) ↦ rw e refl | inr (q, e) ↦ rw e refl ]

    abbrev decide : ℕ → ℕ → ℕ → World L → Outcome DescriptorStatus × World L
    decide before results hits w =
        get_response_descriptor_status base (c ∷ k)
          (new_rate_limit_info (some limit) before results 0 0) false hits w

    statuses_world :
        (hits : ℕ) (results : ℕ) (s : State L R)
        → (statuses backend only
            (some limit ∷ [])
            (not_in_cache ∷ [])
            (results ∷ [])
            hits
            s).1.world
          ≡ (decide (sub32 results hits) results hits s.world).1
    unfolding statuses
    statuses_world hits results s =
        elim (Outcome-cases (decide (sub32 results hits) results hits s.world).0) [
          | inl (a, e) ↦ rw e refl
          | inr (q, e) ↦ rw e refl
        ]

    -- The world after the statuses: still no local cache, and one more reading of the clock.
    pub kept :
        (a hits d : ℕ) (s : State L R)
        → unit_to_divider limit.limit.unit ≡ returns d
        → a + hits < uint32_mod
        → s.world.local ≡ none
        → (let w =
              (statuses backend only
                (some limit ∷ [])
                (not_in_cache ∷ [])
                ((a + hits) ∷ [])
                hits
                s).1.world in
            (w.local ≡ none) × (w.time ≡ (λ i. s.world.time (suc i))))
    kept a hits d s h fits no_cache =
        let same =
          statuses_world hits (a + hits) s
          ∙ ap (λ x. (decide x (a + hits) hits s.world).1) (before_lem a hits fits) in
        (
          ap (λ x. x.local) same
              ∙ (counted_remembers base c k limit a hits d s.world h
                  ∙ ap (remembered base (c ∷ k) limit (a + hits) d) no_cache),
          ap (λ x. x.time) same ∙ counted_time base c k limit a hits d s.world h,
        )
