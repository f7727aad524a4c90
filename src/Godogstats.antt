-- ===== src/Godogstats.antt =====
-- src/godogstats/dogstatsd_sink.go: the names and tags of the metrics. The client that sends them is a
-- library.
pub mod Mogrifier
pub mod Tags
use api_ratelimit.Common.{GoString, text, none, some, List, [], ◌∷◌, ◌++◌}
use api_ratelimit.Common.Strings.{cut, split}
use api_ratelimit.Godogstats.Mogrifier.{mogrify_first, MogrifierEntry}

-- separateTags: the loop over the pairs; a malformed pair is left out.
unfoldable pub tags_of : List GoString → List GoString
unfolding cut
tags_of [] = []
tags_of (pair ∷ pairs) = elim (cut pair (text "=")) [
  | none ↦ tags_of pairs
  | some (tag_name, tag_value) ↦ (tag_name ++ b':' ∷ tag_value) ∷ tags_of pairs
]

-- dogstatsd_sink.go, separateTags
unfoldable pub separate_tags : GoString → GoString × List GoString
unfolding cut split tags_of
separate_tags name = elim (cut name (text ".__")) [
  | none ↦ (name, [])
  | some (short_name, tag_string) ↦ (short_name, tags_of (split tag_string (text ".__")))
]

-- dogstatsd_sink.go, mogrify
unfoldable pub mogrify : List MogrifierEntry → GoString → GoString × List GoString
unfolding separate_tags mogrify_first
mogrify mogrifier name =
    let (short_name, extra_tags) = separate_tags name in
    let (mogrified, tags) = mogrify_first mogrifier short_name in (mogrified, extra_tags ++ tags)
