-- ===== src/Examples/Serving.antt =====
-- Tests of the service and of its endpoints.
use api_ratelimit.Service.Answers.{worker-IsAnswered, IsAnswered}
use api_ratelimit.Limiter.{Code, ok, over_limit, DescriptorStatus}
use api_ratelimit.Service.Worker.{
  has_limit, initial_tally, tally, response_statuses, response_headers, limits_of, call_backend,
  apply_global_shadow_mode, should_rate_limit_worker, should_rate_limit, Service, Response, Answer,
  responds, fails,
}
use api_ratelimit.Redis.FixedCache.{State}
use api_ratelimit.Common.{
  GoString, text, ◌==◌, Outcome, returns, panics, Dict, insert, lookup, ℕ, ◌≡◌, refl, ◌↔◌, inl,
  true, false, some, List, [], ◌∷◌,
}
use api_ratelimit.Utils.{no_divider, unit_to_divider, unknown}
use api_ratelimit.Request.{LimitOverride, Request}
use api_ratelimit.Config.Tree.{empty_node, find, Node}
use api_ratelimit.Config.Lookup.{get_limit, deref}
use api_ratelimit.Limiter.Cache.{RateLimitCache}
use api_ratelimit.Redis.Cache.{redis_cache}
use api_ratelimit.Server.Health.{new_health_checker}
use api_ratelimit.Server.Health.Invariant.{
  reports, reports-new-IsConsistent, IsConsistent, up, down,
}
use api_ratelimit.Server.Json.{json_handler, json_handler-over_limit, HttpReply, JsonCodec}
use api_ratelimit.Service.Codes.{final_code-tally, IsLowerBound, Among, minimum-tally_least}
use api_ratelimit.Service.Errors.{
  escapes, rejected, should_rate_limit-rejected, should_rate_limit-panics,
}
use api_ratelimit.Service.Overrides.{override_request, override_panics}
use api_ratelimit.Examples.{ten_per_minute, user_entry, by_user, redis, service}

abbrev decided : Code → ℕ → DescriptorStatus
decided code n = record {
  code = code;
  current_limit = some ten_per_minute.limit;
  limit_remaining = n;
  duration_until_reset = some 20;
}

final_code-tally_example :
    (tally true
      (false ∷ true ∷ [])
      (decided over_limit 0 ∷ decided ok 3 ∷ [])
      initial_tally).final_code
    ≡ over_limit
final_code-tally_example =
    final_code-tally true (false ∷ true ∷ []) (decided over_limit 0 ∷ decided ok 3 ∷ [])
      initial_tally false refl

minimum-tally_least_example :
    Among (decided ok 3) (decided ok 7 ∷ decided ok 3 ∷ [])
    × (has_limit (decided ok 3).current_limit ≡ true)
    × IsLowerBound 3 (decided ok 7 ∷ decided ok 3 ∷ [])
unfolding tally
minimum-tally_least_example =
    minimum-tally_least (false ∷ false ∷ []) (decided ok 7 ∷ decided ok 3 ∷ []) (decided ok 3) refl
      refl refl

abbrev no_domain_request : Request
no_domain_request = record { domain = []; descriptors = by_user ∷ []; hits_addend = 1 }

should_rate_limit-rejected_example :
    (e : GoString) × (should_rate_limit (redis_cache redis) no_domain_request service
      ≡ rejected (redis_cache redis) no_domain_request service e)
should_rate_limit-rejected_example =
    should_rate_limit-rejected (redis_cache redis) no_domain_request service (inl refl)

abbrev second_request : Request
second_request = record { domain = text "web"; descriptors = by_user ∷ []; hits_addend = 1 }

abbrev override_unknown : LimitOverride
override_unknown = record { requests_per_unit = 5; unit = unknown }

-- A call with an override whose unit is not known.
abbrev call_unknown : Outcome Answer × Service (State (List GoString) (Dict ℕ))
call_unknown =
    should_rate_limit (redis_cache redis)
      (override_request (text "web") (user_entry ∷ []) override_unknown 1) service

abbrev worker_unknown : Outcome Response × Service (State (List GoString) (Dict ℕ))
worker_unknown =
    should_rate_limit_worker (redis_cache redis)
      (override_request (text "web") (user_entry ∷ []) override_unknown 1) service

abbrev empty_response : Response
empty_response = record { overall_code = ok; statuses = []; headers_to_add = [] }

should_rate_limit-panics_example :
    ((call_unknown.0 ≡ panics no_divider)
      ↔ ((worker_unknown.0 ≡ panics no_divider) × (escapes no_divider ≡ true)))
    × ((call_unknown.0 ≡ returns (fails no_divider))
        ↔ ((worker_unknown.0 ≡ panics no_divider) × (escapes no_divider ≡ false)))
    × ((call_unknown.0 ≡ returns (responds empty_response))
        ↔ (worker_unknown.0 ≡ returns empty_response))
should_rate_limit-panics_example =
    should_rate_limit-panics (redis_cache redis)
      (override_request (text "web") (user_entry ∷ []) override_unknown 1) service no_divider
      empty_response

abbrev web_only : Dict Node
web_only = (text "web", empty_node) ∷ []

override_panics_example :
    (should_rate_limit
      (redis_cache redis)
      (override_request (text "web") (user_entry ∷ []) override_unknown 1)
      service).0
    ≡ panics no_divider
unfolding lookup ◌==◌ unit_to_divider
override_panics_example =
    override_panics (text "web") (user_entry ∷ []) override_unknown 1 web_only empty_node refl redis
      service refl (λ h. cc) refl

reports-new-IsConsistent_example :
    IsConsistent (reports (up (text "redis") ∷ down (text "redis") ∷ []) (new_health_checker true))
reports-new-IsConsistent_example =
    reports-new-IsConsistent true (up (text "redis") ∷ down (text "redis") ∷ [])

abbrev codec : JsonCodec
codec = record { unmarshal = λ s. some no_domain_request; marshal = λ r. some (text "{}") }

abbrev ok_codec : JsonCodec
ok_codec = record { unmarshal = λ s. some second_request; marshal = λ r. some (text "{}") }

abbrev over_cache : RateLimitCache (State (List GoString) (Dict ℕ))
over_cache = record { do_limit = λ request limits s. (returns (decided over_limit 0 ∷ []), s) }

abbrev quiet : Service (State (List GoString) (Dict ℕ))
quiet = record service { headers = record service.headers { enabled = false } }

abbrev over_response : Response
over_response = record {
  overall_code = over_limit;
  statuses = decided over_limit 0 ∷ [];
  headers_to_add = [];
}

worker-IsAnswered_example : IsAnswered over_cache second_request quiet quiet over_response
unfolding should_rate_limit_worker ◌==◌ limits_of call_backend response_headers
    apply_global_shadow_mode tally deref get_limit lookup find response_statuses insert
worker-IsAnswered_example =
    worker-IsAnswered over_cache second_request quiet quiet over_response refl

json_handler-over_limit_example :
    (reply : HttpReply) × (json_handler ok_codec over_cache (some (text "x")) quiet
      ≡ (returns reply, quiet))
    × ((reply.status ≡ 429) ↔ (
        (r : Response) × (written : GoString) × (responds over_response ≡ responds r)
        × (some (text "{}") ≡ some written)
        × (r.overall_code ≡ over_limit)))
unfolding should_rate_limit should_rate_limit_worker ◌==◌ limits_of call_backend response_headers
    apply_global_shadow_mode tally deref get_limit lookup find response_statuses insert
json_handler-over_limit_example =
    json_handler-over_limit ok_codec over_cache (text "x") second_request quiet quiet
      (responds over_response) refl refl
