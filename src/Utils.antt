-- ===== src/Utils.antt =====
-- src/utils/utilities.go, src/utils/time.go and src/utils/multi_closer.go.
pub mod Reset
pub mod Closers
pub mod Tls
use api_ratelimit.Common.{
  ltb, if◌then◌else◌, nat_eq, GoString, text, Go, pure, lift, ◌>>=◌, ◌>>◌, Panic, other_error,
  Outcome, returns, panics, ℕ, ◌+◌, ◌-◌, ◌%◌, ◌||◌, Option, none, List, [], ◌∷◌, ◌++◌, map,
}
use api_ratelimit.Common.Strings.{has_prefix, split_byte, join}

-- pb.RateLimitResponse_RateLimit_Unit, an int32 of the protocol; `other` is any value that the
-- switch of `UnitToDivider` does not name, beside UNKNOWN.
pub data LimitUnit : Type 0 where
  unknown second minute hour day : LimitUnit
  other : ℕ → LimitUnit

abbrev pub no_divider : Panic
no_divider = other_error (text "should not get here")

-- utilities.go, UnitToDivider
unfoldable pub unit_to_divider : LimitUnit → Outcome ℕ
unit_to_divider second = returns 1
unit_to_divider minute = returns 60
unit_to_divider hour = returns 3600
unit_to_divider day = returns 86400
unit_to_divider unknown = panics no_divider
unit_to_divider (other n) = panics no_divider

-- utilities.go, CalculateReset, with the call of `UnixNow` as an argument. Times are seconds since
-- 1970, and not negative.
unfoldable pub calculate_reset : {S : Type 0} → LimitUnit → Go S ℕ → Go S ℕ
unfolding unit_to_divider
calculate_reset unit unix_now = do
  sec ← lift (unit_to_divider unit)
  now ← unix_now
  pure (sec - now % sec)

-- utilities.go, Max
unfoldable pub max : ℕ → ℕ → ℕ
max a b = if ltb b a then a else b

-- uint32 and uint64 arithmetic, which wraps around.
abbrev pub uint32_mod : ℕ
uint32_mod = 4294967296

unfoldable pub add32 : ℕ → ℕ → ℕ
add32 a b = (a + b) % uint32_mod

unfoldable pub sub32 : ℕ → ℕ → ℕ
sub32 a b = (a + uint32_mod - b) % uint32_mod

-- utilities.go, SanitizeStatName: the replacer puts `_` for each `:` and each `|`.
abbrev pub sanitize_byte : ℕ → ℕ
sanitize_byte c = if nat_eq c b':' || nat_eq c b'|' then b'_' else c

unfoldable pub sanitize_stat_name : GoString → GoString
sanitize_stat_name = map sanitize_byte

abbrev pub last_part : GoString → List GoString → GoString
last_part p [] = p
last_part p (q ∷ qs) = last_part q qs

-- utilities.go, MaskCredentialsInUrl: the body of the loop, on the parts of one url round `@`.
unfoldable pub mask_parts : GoString → List GoString → GoString
mask_parts url [] = url
mask_parts url (p ∷ []) = url
mask_parts url (p ∷ q ∷ qs) =
    if has_prefix p (text "redis://") then text "redis://*****@" ++ last_part q qs else url

unfoldable pub mask_url : GoString → GoString
unfolding mask_parts
mask_url url = mask_parts url (split_byte url b'@')

unfoldable pub mask_credentials_in_url : GoString → GoString
unfolding mask_url
mask_credentials_in_url url = join (map mask_url (split_byte url b',')) (text ",")

-- multi_closer.go, Close, given the error that each closer returns, in order. errors.Join drops a
-- nil, and of one error makes a joined error of the same text.
unfoldable pub close_from : Option GoString → List (Option GoString) → Option GoString
close_from e [] = e
close_from e (r ∷ rs) = close_from r rs

unfoldable pub close : List (Option GoString) → Option GoString
unfolding close_from
close = close_from none
