-- ===== src/Service/Overrides.antt =====
-- A descriptor that brings its own limit (src/config/config_impl.go, GetLimit, with
-- src/utils/utilities.go, UnitToDivider, and src/service/ratelimit.go).
use api_ratelimit.Service.Errors.{should_rate_limit-panics}
use api_ratelimit.Limiter.{ok}
use api_ratelimit.Common.{
  GoString, ◌==◌, eq_false, panics, Dict, insert, lookup, ℕ, ◌≡◌, refl, ◌≢◌, some, List, [], ◌∷◌,
  arith,
}
use api_ratelimit.Utils.{no_divider, unit_to_divider}
use api_ratelimit.Stats.{Calls}
use api_ratelimit.Request.{Entry, LimitOverride, Request}
use api_ratelimit.Config.Tree.{Node}
use api_ratelimit.Config.Lookup.{override_limit, get_limit_in, get_limit, deref, new_limit}
use api_ratelimit.Redis.FixedCache.{FixedCache, State}
use api_ratelimit.Redis.Cache.{redis_cache, do_limit-no_divider}
use api_ratelimit.Service.Limits.{construct_limits_to_check}
use api_ratelimit.Service.Worker.{
  limits_of, call_backend, should_rate_limit_worker, should_rate_limit, Service,
}

abbrev pub override_request : GoString → List Entry → LimitOverride → ℕ → Request
override_request domain entries o n = record {
  domain = domain;
  descriptors = record { entries = entries; limit = some o } ∷ [];
  hits_addend = n;
}

module _ (domain : GoString) (entries : List Entry) (o : LimitOverride) (n : ℕ)
    (domains : Dict Node) (node : Node) (configured : lookup domain domains ≡ some node) where
  get_limit-override :
      (calls : Calls)
      → get_limit domains domain (record { entries = entries; limit = some o }) calls ≡ (
        new_limit (override_limit domain (record { entries = entries; limit = some o }) o),
        insert domain node domains,
        calls,
      )
  unfolding get_limit get_limit_in
  get_limit-override calls = rw (configured, get_limit) refl

  -- In a configured domain the descriptor's own limit is the one that is checked, whatever the
  -- configuration has for its entries.
  pub construct-override :
      (calls : Calls)
      → (construct_limits_to_check domain
          (override_request domain entries o n).descriptors
          domains
          calls).0
        ≡ some (override_limit domain (record { entries = entries; limit = some o }) o) ∷ []
  unfolding construct_limits_to_check override_limit deref ◌==◌
  construct-override calls = ground (arith, get_limit-override calls)

  module _ {L F R : Type 0} (this : FixedCache L F R) (s : Service (State L R)) where
    -- A request for a configured domain whose descriptor brings a limit with a unit that has no
    -- divider, such as the default UNKNOWN, ends in a panic that `ShouldRateLimit` does not turn into
    -- an error.
    pub override_panics :
        s.config ≡ some domains
        → domain ≢ []
        → unit_to_divider o.unit ≡ panics no_divider
        → (should_rate_limit (redis_cache this) (override_request domain entries o n) s).0
          ≡ panics no_divider
    unfolding should_rate_limit_worker limits_of call_backend override_limit
    override_panics loaded nonempty h =
        (should_rate_limit-panics (redis_cache this) (override_request domain entries o n) s
            no_divider (record { overall_code = ok; statuses = []; headers_to_add = [] })).0.1
          (
            ground (
              arith,
              eq_false domain [] nonempty,
              construct-override s.calls,
              do_limit-no_divider this domain (record { entries = entries; limit = some o }) []
                  (override_limit domain (record { entries = entries; limit = some o }) o) [] n
                  s.backend no_divider refl h,
            ),
            refl,
          )
