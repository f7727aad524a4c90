-- ===== src/Godogstats/Mogrifier.antt =====
-- src/godogstats/mogrifier_map.go. Regular expressions and the reader of the environment are
-- parameters.
use api_ratelimit.Common.{
  leb, if◌then◌else◌, nat_eq, get_elem?, GoString, text, ◌==◌, Dict, ℕ, Bool, ◌&&◌, Option, none,
  some, List, [], ◌∷◌, ◌++◌,
}
use api_ratelimit.Common.Decimal.{value_from}
use api_ratelimit.Srv.{and_found, Result, found, failed}

-- mogrifier_map.go, mogrifierEntry: the matcher gives the submatches, none where there is no match.
pub record MogrifierEntry : Type 0 where
  pub matcher : GoString → List GoString
  pub handler : List GoString → GoString × List GoString

-- mogrifier_map.go, mogrify
unfoldable pub mogrify_first : List MogrifierEntry → GoString → GoString × List GoString
mogrify_first [] name = (name, [])
mogrify_first (entry ∷ entries) name = elim (entry.matcher name) [
  | [] ↦ mogrify_first entries name
  | m ∷ matches ↦ entry.handler (m ∷ matches)
]

abbrev pub is_digit : ℕ → Bool
is_digit c = leb b'0' c && leb c b'9'

abbrev pub match_or : GoString → Option GoString → GoString
match_or s none = s
match_or s (some m) = m

-- makePatternHandler: the function that is called for `$` and digits. A number that Atoi refuses is
-- above every index.
unfoldable pub replace_var : List GoString → GoString → GoString
unfolding value_from
replace_var matches [] = text "$"
replace_var matches (c ∷ digits) =
    match_or (b'$' ∷ c ∷ digits) (get_elem? matches (value_from 0 (c ∷ digits)))

-- varFinder.ReplaceAllStringFunc: what a byte adds to the output, and the digits read since a `$`.
unfoldable pub scan_byte : List GoString → Option GoString → ℕ → GoString × Option GoString
unfolding replace_var
scan_byte matches none c = if nat_eq c b'$' then ([], some []) else (c ∷ [], none)
scan_byte matches (some digits) c =
    if is_digit c
    then ([], some (digits ++ c ∷ []))
    else if nat_eq c b'$'
    then (replace_var matches digits, some [])
    else (replace_var matches digits ++ c ∷ [], none)

unfoldable pub expand : List GoString → Option GoString → GoString → GoString
unfolding scan_byte replace_var
expand matches none [] = []
expand matches (some digits) [] = replace_var matches digits
expand matches pending (c ∷ s) =
    let (out, pending') = scan_byte matches pending c in out ++ expand matches pending' s

-- mogrifier_map.go, makePatternHandler
unfoldable pub make_pattern_handler : GoString → List GoString → GoString
unfolding expand
make_pattern_handler pattern matches = expand matches none pattern

-- newMogrifierMapFromEnv, config: the tags in the order in which the map is ranged over
pub record MogrifierConfig : Type 0 where
  pub pattern : GoString
  pub tags : Dict GoString
  pub name : GoString

-- newMogrifierMapFromEnv: the loop over the tags, which ends at the first error
unfoldable pub check_tags : GoString → Dict GoString → Result (Unit {0})
check_tags mogrifier [] = found tt
check_tags mogrifier ((key, value) ∷ tags) =
    let rest = check_tags mogrifier tags in
    if key == []
    then failed (text "no key specified for tag " ++ (key ++ (text " for mogrifier " ++ mogrifier)))
    else if value == []
    then failed
        (text "no value specified for tag " ++ (key ++ (text " for mogrifier " ++ mogrifier)))
    else rest

unfoldable pub tag_values : Dict GoString → List GoString → List GoString
unfolding make_pattern_handler
tag_values [] matches = []
tag_values ((key, value) ∷ tags) matches =
    (key ++ b':' ∷ make_pattern_handler value matches) ∷ tag_values tags matches

module _ (process : GoString → Result MogrifierConfig)
    (compile : GoString → Result (GoString → List GoString)) where
  -- newMogrifierMapFromEnv: the body of the loop for a configuration that was read
  unfoldable pub entry_of : GoString → MogrifierConfig → Result MogrifierEntry
  unfolding check_tags tag_values make_pattern_handler
  entry_of mogrifier cfg =
      if cfg.pattern == []
      then failed (text "no PATTERN specified for mogrifier " ++ mogrifier)
      else elim (compile cfg.pattern) [
        | failed e ↦ failed (
            text "failed to compile pattern for "
            ++ (mogrifier ++ (text ": " ++ (cfg.pattern ++ (text ": " ++ e)))))
        | found re ↦
            if cfg.name == []
            then failed (text "no NAME specified for mogrifier " ++ mogrifier)
            else and_found (check_tags mogrifier cfg.tags) λ u. found (record {
              matcher = re;
              handler =
                  λ matches. (make_pattern_handler cfg.name matches, tag_values cfg.tags matches);
            })
      ]

  -- mogrifier_map.go, newMogrifierMapFromEnv; `process` reads the variables with a prefix.
  unfoldable pub new_mogrifier_map_from_env : List GoString → Result (List MogrifierEntry)
  unfolding entry_of
  new_mogrifier_map_from_env [] = found []
  new_mogrifier_map_from_env (mogrifier ∷ keys) =
      elim (process (text "DOG_STATSD_MOGRIFIER_" ++ mogrifier)) [
        | failed e ↦ failed (text "failed to load mogrifier " ++ (mogrifier ++ (text ": " ++ e)))
        | found cfg ↦
            and_found (entry_of mogrifier cfg) λ entry.
              and_found (new_mogrifier_map_from_env keys) λ entries. found (entry ∷ entries)
      ]
