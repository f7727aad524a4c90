-- ===== src/Stats/Naming.antt =====
-- Names of metrics (src/stats/manager_impl.go, src/utils/utilities.go).
use api_ratelimit.Common.{All, GoString, text, ◌==◌, ◌≡◌, refl, ◌∙◌, ◌≢◌, [], ◌∷◌, ◌++◌, arith}
use api_ratelimit.Utils.{sanitize_stat_name}
use api_ratelimit.Stats.{
  same_counter, new_stats, counter, same_kind, IsSeparated, rate_limit_scope, Kind, all_hits,
  over_hits, near_hits, local_hits, within_hits, shadow_hits,
}

eq-append_left : (k s t : GoString) → ((k ++ s) == (k ++ t)) ≡ (s == t)
unfolding ◌==◌
eq-append_left [] s t = refl
eq-append_left (c ∷ k) s t = ground (arith, eq-append_left k s t)

suffix : Kind → GoString
suffix all_hits = text ".total_hits"
suffix over_hits = text ".over_limit"
suffix near_hits = text ".near_limit"
suffix local_hits = text ".over_limit_with_local_cache"
suffix within_hits = text ".within_limit"
suffix shadow_hits = text ".shadow_mode"

suffix_same : (a b : Kind) → (suffix a == suffix b) ≡ same_kind a b
unfolding suffix ◌==◌
suffix_same all_hits all_hits = refl
suffix_same all_hits _ = refl
suffix_same over_hits all_hits = refl
suffix_same over_hits _ = refl
suffix_same near_hits all_hits = refl
suffix_same near_hits _ = refl
suffix_same local_hits all_hits = refl
suffix_same local_hits _ = refl
suffix_same within_hits all_hits = refl
suffix_same within_hits _ = refl
suffix_same shadow_hits all_hits = refl
suffix_same shadow_hits _ = refl

counter-new_stats :
    (key : GoString) (a : Kind)
    → counter (new_stats key) a ≡ rate_limit_scope (sanitize_stat_name key ++ suffix a)
unfolding new_stats suffix
counter-new_stats key all_hits = refl
counter-new_stats key _ = refl

-- The six counters that `NewStats` makes for a key are different, whatever the key.
pub new_stats-IsSeparated : (key : GoString) → IsSeparated (new_stats key)
unfolding same_counter
new_stats-IsSeparated key a b =
    rw (counter-new_stats key a, counter-new_stats key b)
      (eq-append_left (sanitize_stat_name key) (suffix a) (suffix b) ∙ suffix_same a b)

-- A sanitized name has none of the separators of the statsd protocol, `:` and `|`.
pub sanitize_stat_name_clean :
    (s : GoString) → All (λ c. (c ≢ b':') × (c ≢ b'|')) (sanitize_stat_name s)
unfolding sanitize_stat_name
sanitize_stat_name_clean [] = tt
sanitize_stat_name_clean (c ∷ s) = ((ground arith, ground arith), sanitize_stat_name_clean s)
