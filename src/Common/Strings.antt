-- ===== src/Common/Strings.antt =====
-- The functions of Go's packages `strings` and `strconv` that the code calls, on byte lists.
-- Separators are not empty, as at every call.
use Prim.Native.Nat.{ℕ, zero, suc, ◌+◌, ◌-◌, ◌/◌, ◌%◌}
use mathlib.Core.Bool.{Bool, true, false, ◌&&◌}
use mathlib.Core.Option.{Option, none, some}
use mathlib.Core.List.{List, [], ◌∷◌, ◌++◌, reverse, map}
use api_ratelimit.Common.Tests.{ltb, leb, if◌then◌else◌}
use api_ratelimit.Common.Tests
use api_ratelimit.Common.Lists.{length}
use api_ratelimit.Common.Text.{GoString}

-- The rest behind a prefix.
unfoldable pub after_prefix : GoString → GoString → Option GoString
after_prefix [] s = some s
after_prefix (c ∷ p) [] = none
after_prefix (c ∷ p) (d ∷ s) = if Tests.◌==◌ c d then after_prefix p s else none

abbrev is_some : Option GoString → Bool
is_some none = false
is_some (some r) = true

-- strings.HasPrefix(s, p)
unfoldable pub has_prefix : GoString → GoString → Bool
unfolding after_prefix
has_prefix s p = is_some (after_prefix p s)

abbrev or_self : GoString → Option GoString → GoString
or_self s none = s
or_self s (some r) = r

-- strings.TrimPrefix(s, p)
unfoldable pub trim_prefix : GoString → GoString → GoString
unfolding after_prefix
trim_prefix s p = or_self s (after_prefix p s)

abbrev map_reverse : Option GoString → Option GoString
map_reverse none = none
map_reverse (some r) = some (reverse r)

-- strings.TrimSuffix(s, p)
unfoldable pub trim_suffix : GoString → GoString → GoString
unfolding after_prefix
trim_suffix s p = or_self s (map_reverse (after_prefix (reverse p) (reverse s)))

abbrev pub push_byte : ℕ → Option (GoString × GoString) → Option (GoString × GoString)
push_byte c none = none
push_byte c (some (a, b)) = some (c ∷ a, b)

abbrev pub or_cut : Option GoString → Option (GoString × GoString) → Option (GoString × GoString)
or_cut (some r) later = some ([], r)
or_cut none later = later

-- before, after, found := strings.Cut(s, sep); `none` where the separator is not found.
unfoldable pub cut : GoString → GoString → Option (GoString × GoString)
unfolding after_prefix
cut [] sep = none
cut (c ∷ s) sep = or_cut (after_prefix sep (c ∷ s)) (push_byte c (cut s sep))

-- strings.Split(s, sep) with a separator of one byte.
abbrev push_head : ℕ → List GoString → List GoString
push_head c [] = (c ∷ []) ∷ []
push_head c (p ∷ ps) = (c ∷ p) ∷ ps

unfoldable pub split_byte : GoString → ℕ → List GoString
split_byte [] sep = [] ∷ []
split_byte (c ∷ s) sep =
    let rest = split_byte s sep in if Tests.◌==◌ c sep then [] ∷ rest else push_head c rest

-- strings.Split(s, sep) with a longer separator, on fuel for the bytes left.
unfoldable pub split_fuel : ℕ → GoString → GoString → List GoString
unfolding cut
split_fuel zero s sep = s ∷ []
split_fuel (suc n) s sep = elim (cut s sep) [ none ↦ s ∷ [] | some (a, b) ↦ a ∷ split_fuel n b sep ]

unfoldable pub split : GoString → GoString → List GoString
unfolding split_fuel
split s sep = split_fuel (length s) s sep

-- strings.Join(ps, sep)
unfoldable pub join : List GoString → GoString → GoString
join [] sep = []
join (p ∷ []) sep = p
join (p ∷ q ∷ ps) sep = p ++ (sep ++ join (q ∷ ps) sep)

-- strings.ToUpper and strings.ToLower on an ASCII byte.
abbrev pub upper_byte : ℕ → ℕ
upper_byte c = if leb b'a' c && leb c b'z' then c - 32 else c

abbrev pub lower_byte : ℕ → ℕ
lower_byte c = if leb b'A' c && leb c b'Z' then c + 32 else c

unfoldable pub to_upper : GoString → GoString
to_upper = map upper_byte

unfoldable pub to_lower : GoString → GoString
to_lower = map lower_byte

-- strconv.FormatUint(n, 10): the fuel is one more than the number, and so more than its digits.
unfoldable pub format_fuel : ℕ → ℕ → GoString → GoString
format_fuel zero n acc = acc
format_fuel (suc f) n acc =
    let rest = format_fuel f (n / 10) ((b'0' + n % 10) ∷ acc) in
    if ltb n 10 then (b'0' + n) ∷ acc else rest

unfoldable pub format_uint : ℕ → GoString
unfolding format_fuel
format_uint n = format_fuel (suc n) n []
