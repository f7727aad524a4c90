-- ===== src/Examples/Helpers.antt =====
-- Tests of the helpers and of the check of a load.
use api_ratelimit.Common.{text, returns, ℕ, ◌+◌, ◌%◌, ◌≤◌, ◌<◌, ◌≡◌, refl, []}
use api_ratelimit.Utils.{unit_to_divider, calculate_reset, minute}
use api_ratelimit.Utils.Reset.{calculate_reset_window}
use api_ratelimit.Config.Yaml.{ConfigToLoad}
use api_ratelimit.Limiter.{unix_now}
use api_ratelimit.Examples.{noon, items}

calculate_reset_window_example :
    (r : ℕ) × (calculate_reset minute unix_now noon ≡ (returns r, noon))
    × (0 < r)
    × (r ≤ 60)
    × ((1000 + r) % 60 ≡ 0)
unfolding unit_to_divider unix_now
calculate_reset_window_example = calculate_reset_window minute 60 1000 unix_now noon noon refl refl

abbrev empty_domain : ConfigToLoad
empty_domain = record { name = text "f"; config_yaml = record { domain = []; descriptors = items } }
