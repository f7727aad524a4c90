-- ===== src/Examples/Metrics.antt =====
-- Tests of the names of metrics and of the flags of the client.
use api_ratelimit.Common.{text, ◌≡◌, refl, [], ◌∷◌, ◌++◌, map}
use api_ratelimit.Common.Strings.{cut}
use api_ratelimit.Godogstats.Mogrifier.{mogrify_first, make_pattern_handler, MogrifierEntry}
use api_ratelimit.Godogstats.{mogrify}
use api_ratelimit.Godogstats.Tags.{Tag, tag_text, write_tags, mogrify-write}

-- A mogrifier for every name: the whole name is the submatch 0.
abbrev any_name : MogrifierEntry
any_name = record {
  matcher = λ name. name ∷ text "b" ∷ [];
  handler = λ matches. (make_pattern_handler (text "a.$1$2$") matches, []);
}

pattern_test : make_pattern_handler (text "a.$1$2$") (text "x" ∷ text "b" ∷ []) ≡ text "a.b$2$"
unfolding make_pattern_handler
pattern_test = refl

abbrev commit : Tag
commit = (text "COMMIT", text "12345")

mogrify-write_example : mogrify (any_name ∷ []) (text "hits" ++ write_tags (commit ∷ [])) ≡ (
    let (mogrified, tags) = mogrify_first (any_name ∷ []) (text "hits") in
    (mogrified, map tag_text (commit ∷ []) ++ tags))
unfolding cut
mogrify-write_example =
    mogrify-write (any_name ∷ []) (text "hits") (commit ∷ []) refl ((refl, refl), tt)
