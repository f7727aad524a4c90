-- ===== src/Limiter/Keys.antt =====
-- src/limiter/base_limiter.go, GenerateCacheKeys
use api_ratelimit.Common.{
  if◌then◌else◌, nat_eq, length, GoString, text, Go, pure, panic, lift, ◌>>=◌, ◌>>◌, Panic,
  other_error, ℕ, Option, none, some, List, [], ◌∷◌,
}
use api_ratelimit.Request.{Descriptor, Request}
use api_ratelimit.Config.Limit.{RateLimit}
use api_ratelimit.Limiter.{nil_dereference, add, unix_now, World}
use api_ratelimit.Limiter.CacheKey.{generate_cache_key, CacheKey}

-- The panic of `assert.Assert`; its text, which names a place in the source, is shortened.
abbrev pub assertion_failed : Panic
assertion_failed = other_error (text "assertion failed")

module _ {L : Type 0} where
  -- The statistics of a limit that a request hits.
  unfoldable pub count_hit : Option RateLimit → ℕ → Go (World L) (Unit {0})
  unfolding add
  count_hit none hits = pure tt
  count_hit (some limit) hits = add limit.stats.total_hits hits

  -- base_limiter.go, GenerateCacheKeys: the loop
  unfoldable pub keys_from :
      GoString
      → GoString
      → ℕ
      → ℕ
      → List Descriptor
      → List (Option RateLimit)
      → Go (World L) (List CacheKey)
  unfolding count_hit
  keys_from prefix domain now hits [] limits = pure []
  keys_from prefix domain now hits (d ∷ ds) [] = panic nil_dereference
  keys_from prefix domain now hits (d ∷ ds) (l ∷ ls) = do
    key ← lift (generate_cache_key prefix domain d l now)
    count_hit l hits
    keys ← keys_from prefix domain now hits ds ls
    pure (key ∷ keys)

  -- base_limiter.go, GenerateCacheKeys
  unfoldable pub generate_cache_keys :
      GoString → Request → List (Option RateLimit) → ℕ → Go (World L) (List CacheKey)
  unfolding keys_from unix_now
  generate_cache_keys prefix request limits hits =
      if nat_eq (length request.descriptors) (length limits)
      then (do now ← unix_now; keys_from prefix request.domain now hits request.descriptors limits)
      else panic assertion_failed
