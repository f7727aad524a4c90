-- ===== src/Service/Worker.antt =====
-- src/service/ratelimit.go: the answer to a request.
use api_ratelimit.Common.{
  ltb, if◌then◌else◌, nat_eq, length, GoString, text, ◌==◌, Go, pure, panic, lift, gets, ◌>>=◌,
  ◌>>◌, modify, check, Panic, redis_error, service_error, Outcome, returns, panics, Dict, ℕ, suc,
  Bool, true, false, not, ◌&&◌, Option, none, some, List, [], ◌∷◌,
}
use api_ratelimit.Common.Strings.{format_uint}
use api_ratelimit.Utils.{calculate_reset}
use api_ratelimit.Stats.{Calls, ServiceStats}
use api_ratelimit.Request.{Request}
use api_ratelimit.Config.Limit.{LimitValue, RateLimit}
use api_ratelimit.Config.Tree.{Node}
use api_ratelimit.Limiter.{nil_dereference, Code, ok, over_limit, DescriptorStatus}
use api_ratelimit.Limiter.Keys.{assertion_failed}
use api_ratelimit.Limiter.Cache.{RateLimitCache}
use api_ratelimit.Service.Limits.{construct_limits_to_check}

-- The custom headers of `service`.
pub record Headers : Type 0 where
  pub enabled : Bool
  pub limit_header : GoString
  pub remaining_header : GoString
  pub reset_header : GoString

-- ratelimit.go, service: the fields that change, the calls of counters, the backend, and the times of
-- customHeaderClock. `config` is `none` while no configuration is loaded.
pub record Service (B : Type 0) : Type 0 where
  pub config : Option (Dict Node)
  pub headers : Headers
  pub global_shadow_mode : Bool
  pub stats : ServiceStats
  pub calls : Calls
  pub backend : B
  pub clock : ℕ → ℕ

-- pb.RateLimitResponse
pub record Response : Type 0 where
  pub overall_code : Code
  pub statuses : List DescriptorStatus
  pub headers_to_add : List (GoString × GoString)

abbrev pub max_uint32 : ℕ
max_uint32 = 4294967295

abbrev pub is_over_limit_code : Code → Bool
is_over_limit_code over_limit = true
is_over_limit_code _ = false

abbrev pub has_limit : Option LimitValue → Bool
has_limit none = false
has_limit (some l) = true

-- shouldRateLimitWorker: the variables of the loop over the statuses
pub record Tally : Type 0 where
  pub final_code : Code
  pub min_limit_remaining : ℕ
  pub minimum_descriptor : Option DescriptorStatus

abbrev pub initial_tally : Tally
initial_tally = record {
  final_code = ok;
  min_limit_remaining = max_uint32;
  minimum_descriptor = none;
}

-- shouldRateLimitWorker: the first test of the loop's body
unfoldable pub track_minimum : Bool → DescriptorStatus → Tally → Tally
track_minimum headers_enabled s t =
    if headers_enabled && (has_limit s.current_limit && ltb s.limit_remaining t.min_limit_remaining)
    then record t { minimum_descriptor = some s; min_limit_remaining = s.limit_remaining }
    else t

-- shouldRateLimitWorker: the second test of the loop's body
unfoldable pub track_code : Bool → DescriptorStatus → Tally → Tally
track_code unlimited s t =
    if not unlimited && is_over_limit_code s.code
    then record { final_code = s.code; minimum_descriptor = some s; min_limit_remaining = 0 }
    else t

unfoldable pub tally : Bool → List Bool → List DescriptorStatus → Tally → Tally
unfolding track_minimum track_code
tally headers_enabled (u ∷ us) (s ∷ ss) t =
    tally headers_enabled us ss (track_code u s (track_minimum headers_enabled s t))
tally headers_enabled _ _ t = t

-- shouldRateLimitWorker: the status of a descriptor in the response
abbrev pub unlimited_status : DescriptorStatus
unlimited_status = record {
  code = ok;
  current_limit = none;
  limit_remaining = max_uint32;
  duration_until_reset = none;
}

unfoldable pub response_statuses : List Bool → List DescriptorStatus → List DescriptorStatus
response_statuses (u ∷ us) (s ∷ ss) = (if u then unlimited_status else s) ∷ response_statuses us ss
response_statuses _ _ = []

-- What `ShouldRateLimit` returns: a response, or an error.
pub data Answer : Type 0 where
  responds : Response → Answer
  fails : Panic → Answer

abbrev pub no_domain : GoString
no_domain = text "rate limit domain must not be empty"

abbrev pub no_descriptors : GoString
no_descriptors = text "rate limit descriptor list must not be empty"

module _ {B : Type 0} where
  -- customHeaderClock.UnixNow()
  unfoldable pub header_now : Go (Service B) ℕ
  header_now s = (returns (s.clock 0), record s { clock = λ n. s.clock (suc n) })

  abbrev limit_of : Option LimitValue → Go (Service B) LimitValue
  limit_of none = panic nil_dereference
  limit_of (some l) = pure l

  -- rateLimitLimitHeader, rateLimitRemainingHeader and rateLimitResetHeader
  unfoldable pub headers_for : DescriptorStatus → Go (Service B) (List (GoString × GoString))
  unfolding header_now calculate_reset
  headers_for d = do
    h ← gets (λ s. s.headers)
    l ← limit_of d.current_limit
    reset ← calculate_reset l.unit header_now
    pure (
        (h.limit_header, format_uint l.requests_per_unit)
        ∷ (h.remaining_header, format_uint d.limit_remaining)
        ∷ (h.reset_header, format_uint reset)
        ∷ [])

  -- shouldRateLimitWorker: the headers, if requested
  unfoldable pub response_headers :
      Bool → Option DescriptorStatus → Go (Service B) (List (GoString × GoString))
  unfolding headers_for
  response_headers true (some d) = headers_for d
  response_headers _ _ = pure []

  -- checkServiceErr
  abbrev pub check_service_err : Bool → GoString → Go (Service B) (Unit {0})
  check_service_err something msg = lift (check (service_error msg) something)

  -- GetCurrentConfig, and the check of constructLimitsToCheck
  abbrev loaded : Option (Dict Node) → Go (Service B) (Dict Node)
  loaded none = panic (service_error (text "no rate limit configuration loaded"))
  loaded (some c) = pure c

  -- shouldRateLimitWorker: the call of constructLimitsToCheck
  unfoldable pub limits_of : Request → Go (Service B) (List (Option RateLimit) × List Bool)
  unfolding construct_limits_to_check
  limits_of request = do
    config ← gets (λ s. s.config)
    domains ← loaded config
    calls ← gets (λ s. s.calls)
    let (limits, found) = construct_limits_to_check request.domain request.descriptors domains calls
    modify (λ s. record s { config = some found.domains; calls = found.calls })
    pure (limits, found.unlimited)

  -- shouldRateLimitWorker: the call of the backend
  unfoldable pub call_backend :
      RateLimitCache B → Request → List (Option RateLimit) → Go (Service B) (List DescriptorStatus)
  call_backend cache request limits s =
      let (r, b) = cache.do_limit request limits s.backend in (r, record s { backend = b })

  -- shouldRateLimitWorker: the global shadow mode
  unfoldable pub apply_global_shadow_mode : Bool → Code → Go (Service B) Code
  apply_global_shadow_mode global_shadow_mode code s =
      if is_over_limit_code code && global_shadow_mode
      then (returns ok, record s { calls = (s.stats.global_shadow_mode, 1) ∷ s.calls })
      else (returns code, s)

  -- ratelimit.go, shouldRateLimitWorker
  unfoldable pub should_rate_limit_worker : RateLimitCache B → Request → Go (Service B) Response
  should_rate_limit_worker cache request = do
    check_service_err (not (request.domain == [])) no_domain
    check_service_err (ltb 0 (length request.descriptors)) no_descriptors
    global_shadow_mode ← gets (λ s. s.global_shadow_mode)
    (limits, unlimited) ← limits_of request
    statuses ← call_backend cache request limits
    lift (check assertion_failed (nat_eq (length limits) (length statuses)))
    enabled ← gets (λ s. s.headers.enabled)
    let t = tally enabled unlimited statuses initial_tally
    headers ← response_headers enabled t.minimum_descriptor
    code ← apply_global_shadow_mode global_shadow_mode t.final_code
    pure (record {
      overall_code = code;
      statuses = response_statuses unlimited statuses;
      headers_to_add = headers;
    })

  -- ShouldRateLimit: the deferred function
  unfoldable pub recover : Outcome Response → Go (Service B) Answer
  recover (returns r) s = (returns (responds r), s)
  recover (panics (redis_error e)) s =
      (returns (fails (redis_error e)), record s { calls = (s.stats.redis_errors, 1) ∷ s.calls })
  recover (panics (service_error e)) s = (
    returns (fails (service_error e)),
    record s { calls = (s.stats.service_errors, 1) ∷ s.calls },
  )
  recover (panics p) s = (panics p, s)

  -- ratelimit.go, ShouldRateLimit
  unfoldable pub should_rate_limit : RateLimitCache B → Request → Go (Service B) Answer
  unfolding recover
  should_rate_limit cache request s =
      let (r, s') = should_rate_limit_worker cache request s in recover r s'
