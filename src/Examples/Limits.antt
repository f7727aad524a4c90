-- ===== src/Examples/Limits.antt =====
-- Tests of the limiter.
use api_ratelimit.Config.Limit.{new_rate_limit}
use api_ratelimit.Common.{text, returns, ◌/◌, ◌≡◌, refl, ◌↔◌, false, some, [], arith}
use api_ratelimit.Utils.{unit_to_divider}
use api_ratelimit.Stats.{added, over_hits}
use api_ratelimit.Stats.Naming.{new_stats-IsSeparated}
use api_ratelimit.Limiter.{new_rate_limit_info, near_threshold, get_response_descriptor_status}
use api_ratelimit.Limiter.CacheKey.{generate_cache_key}
use api_ratelimit.Limiter.Decision.{decision, counted_decision}
use api_ratelimit.Limiter.Status.{counted, counted-added}
use api_ratelimit.Limiter.Hits.{count_hits}
use api_ratelimit.Limiter.Windows.{cache_key_window}
use api_ratelimit.Examples.{limiter, noon, ten_per_minute, by_user}

-- Nine hits before, three now, a limit of ten.
counted_decision_example :
    (get_response_descriptor_status limiter
      (text "k")
      (new_rate_limit_info (some ten_per_minute) 9 12 0 0)
      false
      3
      noon).0
    ≡ returns (decision ten_per_minute 12 20)
unfolding unit_to_divider new_rate_limit
counted_decision_example =
    counted_decision limiter b'k' [] ten_per_minute 9 3 60 noon refl (omega arith) (omega arith)

-- Two of the three hits are above the limit.
counted-added_example :
    added ten_per_minute.stats.over_limit (counted limiter b'k' [] ten_per_minute 9 3 noon).1.calls
    ≡ 2
unfolding unit_to_divider near_threshold count_hits new_rate_limit added
counted-added_example =
    counted-added limiter b'k' [] ten_per_minute over_hits 9 3 60 noon refl
      (new_stats-IsSeparated (text "web.user")) (omega arith) (omega arith) (omega arith)

cache_key_window_example :
    (generate_cache_key [] (text "web") by_user (some ten_per_minute) 961
      ≡ generate_cache_key [] (text "web") by_user (some ten_per_minute) 1019)
    ↔ (961 / 60 ≡ 1019 / 60)
unfolding unit_to_divider new_rate_limit
cache_key_window_example = cache_key_window [] (text "web") by_user ten_per_minute 60 refl 961 1019
