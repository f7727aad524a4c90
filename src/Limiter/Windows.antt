-- ===== src/Limiter/Windows.antt =====
-- Cache keys and the windows of time (src/limiter/cache_key.go).
use api_ratelimit.Common.Strings.{format_uint}
use mathlib.Core.List.{append_assoc}
use api_ratelimit.Common.{
  GoString, Outcome, returns, panics, ℕ, ◌*◌, ◌/◌, ◌<◌, ◌≡◌, refl, sym, ap, ◌∙◌, ◌↔◌, Option, none,
  some, List, [], ◌∷◌, ◌++◌, arith,
}
use api_ratelimit.Common.Decimal.{format_uint-injective, append_cancel_left}
use api_ratelimit.Utils.{unit_to_divider, LimitUnit}
use api_ratelimit.Request.{Entry, Descriptor}
use api_ratelimit.Config.Limit.{RateLimit}
use api_ratelimit.Limiter.CacheKey.{is_per_second_limit, key_stem, generate_cache_key, CacheKey}

divider_pos : (u : LimitUnit) (d : ℕ) → unit_to_divider u ≡ returns d → 0 < d
unfolding unit_to_divider
divider_pos u d h = ground arith

same_start : (a b d : ℕ) → 0 < d → a * d ≡ b * d → a ≡ b
same_start a b d h e = grind arith

key_text : Outcome CacheKey → GoString
key_text (returns k) = k.key
key_text (panics p) = []

module _ (prefix domain : GoString) (descriptor : Descriptor) (limit : RateLimit) (d : ℕ)
    (known : unit_to_divider limit.limit.unit ≡ returns d) where
  generated : (n : ℕ) → GoString
  generated n = key_stem prefix domain descriptor.entries ++ format_uint ((n / d) * d)

  generate-known :
      (n : ℕ)
      → generate_cache_key prefix domain descriptor (some limit) n
        ≡ returns (record { key = generated n; per_second = is_per_second_limit limit.limit.unit })
  unfolding generate_cache_key generated
  generate-known n = rw known

  one_window :
      (m n : ℕ)
      → generate_cache_key prefix domain descriptor (some limit) m
        ≡ generate_cache_key prefix domain descriptor (some limit) n
      → m / d ≡ n / d
  unfolding generated key_text
  one_window m n e = same_start (m / d) (n / d) d (divider_pos limit.limit.unit d known) (
      format_uint-injective _ _ (
        append_cancel_left (key_stem prefix domain descriptor.entries) _ _ (
          sym (ap key_text (generate-known m)) ∙ (ap key_text e ∙ ap key_text (generate-known n)))))

  one_key :
      (m n : ℕ)
      → m / d ≡ n / d
      → generate_cache_key prefix domain descriptor (some limit) m
        ≡ generate_cache_key prefix domain descriptor (some limit) n
  unfolding generated
  one_key m n e = rw (generate-known m, generate-known n, e)

  -- For a limit with a known unit, two times give one key for a domain and a descriptor exactly
  -- when they lie in one window of the unit.
  pub cache_key_window :
      (m n : ℕ)
      → (generate_cache_key prefix domain descriptor (some limit) m
          ≡ generate_cache_key prefix domain descriptor (some limit) n)
        ↔ (m / d ≡ n / d)
  cache_key_window m n = (one_window m n, one_key m n)

-- An entry whose key ends in an underscore and a text, and the entry with that text moved to the
-- front of the value, have one cache key, so the two descriptors share a counter.
pub cache_key_collision :
    (prefix domain x y z : GoString) (es : List Entry) (l : Option RateLimit) (now : ℕ)
    → generate_cache_key prefix domain
        (record { entries = record { key = x ++ b'_' ∷ y; value = z } ∷ es; limit = none })
        l
        now
      ≡ generate_cache_key prefix domain
          (record { entries = record { key = x; value = y ++ b'_' ∷ z } ∷ es; limit = none })
          l
          now
unfolding generate_cache_key
cache_key_collision prefix domain x y z es none now = refl
cache_key_collision prefix domain x y z es (some limit) now = simp append_assoc
