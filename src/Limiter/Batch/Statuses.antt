-- ===== src/Limiter/Batch/Statuses.antt =====
-- The status of one limit of a batch, and the world after it (src/limiter/base_limiter.go).
use api_ratelimit.Common.{
  GoString, returns, ℕ, suc, ◌+◌, ◌-◌, ◌%◌, ◌<◌, ◌≡◌, ap, ◌∙◌, false, none, some, ◌∷◌,
}
use api_ratelimit.Utils.{unit_to_divider, uint32_mod}
use api_ratelimit.Config.Limit.{RateLimit}
use api_ratelimit.Limiter.{
  new_rate_limit_info, get_response_descriptor_status, BaseRateLimiter, World,
}
use api_ratelimit.Limiter.Decision.{
  decision, remembered, counted_decision, counted_remembers, counted_time,
}
use api_ratelimit.Limiter.Batch.{window, IsLong}

module _ {L F : Type 0} (base : BaseRateLimiter L F) (hits : ℕ) where
  -- The status of one limit whose counter was at `a`, and the world after it.
  pub record Decided (key : GoString) (l : RateLimit) (before after a : ℕ) (w : World L)
      : Type 0 where
    pub later : World L
    pub decided :
        get_response_descriptor_status base key
          (new_rate_limit_info (some l) before after 0 0)
          false
          hits
          w
        ≡ (returns (decision l (a + hits) (window l - w.time 0 % window l)), later)
    pub no_cache : later.local ≡ none
    pub ticked : later.time ≡ (λ i. w.time (suc i))

  pub decide-Decided :
      (key : GoString) (l : RateLimit) (before after a : ℕ) (w : World L)
      → IsLong key
      → unit_to_divider l.limit.unit ≡ returns (window l)
      → l.limit.requests_per_unit < uint32_mod
      → a + hits < uint32_mod
      → before ≡ a
      → after ≡ a + hits
      → w.local ≡ none
      → Decided key l before after a w
  decide-Decided key l before after a w (c, k, e) known rfits fits b_known a_known h =
      let answered =
        get_response_descriptor_status base (c ∷ k) (new_rate_limit_info (some l) a (a + hits) 0 0)
          false hits w in
      record {
        later = answered.1;
        decided =
            rw (e, b_known, a_known)
              (ap (λ x. (x, answered.1))
                (counted_decision base c k l a hits (window l) w known fits rfits));
        no_cache =
            counted_remembers base c k l a hits (window l) w known
            ∙ ap (remembered base (c ∷ k) l (a + hits) (window l)) h;
        ticked = counted_time base c k l a hits (window l) w known;
      }
