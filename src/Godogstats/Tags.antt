-- ===== src/Godogstats/Tags.antt =====
-- The tags that a metric's name carries (src/godogstats/dogstatsd_sink.go, separateTags).
use api_ratelimit.Godogstats.{tags_of, separate_tags, mogrify}
use api_ratelimit.Godogstats.Mogrifier.{mogrify_first, MogrifierEntry}
use api_ratelimit.Common.{
  length, All, length-append, GoString, text, ℕ, zero, suc, ◌≤◌, ◌≡◌, refl, ap, ◌∙◌, Option, none,
  some, List, [], ◌∷◌, ◌++◌, map, arith,
}
use api_ratelimit.Common.Strings.{after_prefix, push_byte, or_cut, cut, split_fuel, split}

abbrev pub Tag : Type 0
Tag = GoString × GoString

abbrev pub pair_text : Tag → GoString
pair_text (n, v) = n ++ b'=' ∷ v

abbrev pub tag_text : Tag → GoString
tag_text (n, v) = n ++ b':' ∷ v

-- The tags as they are written behind a name.
unfoldable pub write_tags : List Tag → GoString
write_tags [] = []
write_tags (t ∷ ts) = text ".__" ++ (pair_text t ++ write_tags ts)

-- A text in which a separator does not occur.
abbrev pub IsFreeOf : GoString → GoString → Type 0
IsFreeOf sep s = cut s sep ≡ none

-- A tag whose name has no `=`, and that the prefix of tags does not occur in.
abbrev pub IsTag : Tag → Type 0
IsTag t = IsFreeOf (text "=") t.0 × IsFreeOf (text ".__") (pair_text t)

or_cut-none :
    (o : Option GoString) (l : Option (GoString × GoString))
    → or_cut o l ≡ none
    → (o ≡ none) × (l ≡ none)
or_cut-none none l h = (refl, h)
or_cut-none (some r) l h = cc

push_byte-none : (c : ℕ) (l : Option (GoString × GoString)) → push_byte c l ≡ none → l ≡ none
push_byte-none c none h = refl
push_byte-none c (some p) h = cc

free_tail :
    (sep : GoString) (c : ℕ) (s : GoString)
    → IsFreeOf sep (c ∷ s)
    → (after_prefix sep (c ∷ s) ≡ none) × IsFreeOf sep s
unfolding cut
free_tail sep c s h =
    let (a, b) = or_cut-none (after_prefix sep (c ∷ s)) (push_byte c (cut s sep)) h in
    (a, push_byte-none c (cut s sep) b)

-- The prefix of tags does not begin in a text and end in a prefix behind it.
no_straddle :
    (c : ℕ) (s rest : GoString)
    → after_prefix (text ".__") (c ∷ s) ≡ none
    → after_prefix (text ".__") ((c ∷ s) ++ (text ".__" ++ rest)) ≡ none
unfolding after_prefix
no_straddle c [] rest h = ground (arith, h)
no_straddle c (d ∷ []) rest h = ground (arith, h)
no_straddle c (d ∷ e ∷ s) rest h = ground (arith, h)

-- A name is cut where its tags begin.
cut_at_tags :
    (name rest : GoString)
    → IsFreeOf (text ".__") name
    → cut (name ++ (text ".__" ++ rest)) (text ".__") ≡ some (name, rest)
unfolding cut after_prefix
cut_at_tags [] rest h = refl
cut_at_tags (c ∷ name) rest h =
    let (first_free, rest_free) = free_tail (text ".__") c name h in
    rw (no_straddle c name rest first_free, cut_at_tags name rest rest_free) refl

no_straddle_one :
    (d c : ℕ) (s rest : GoString)
    → after_prefix (d ∷ []) (c ∷ s) ≡ none
    → after_prefix (d ∷ []) ((c ∷ s) ++ rest) ≡ none
unfolding after_prefix
no_straddle_one d c s rest h = ground (arith, h)

-- A text is cut at the first place of a byte.
pub cut_at_byte :
    (d : ℕ) (n v : GoString) → IsFreeOf (d ∷ []) n → cut (n ++ d ∷ v) (d ∷ []) ≡ some (n, v)
unfolding cut after_prefix
cut_at_byte d [] v h = ground arith
cut_at_byte d (c ∷ n) v h =
    let (first_free, rest_free) = free_tail (d ∷ []) c n h in
    rw (no_straddle_one d c n (d ∷ v) first_free, cut_at_byte d n v rest_free) refl

append_nothing : (s : GoString) → s ++ [] ≡ s
append_nothing [] = refl
append_nothing (c ∷ s) = ap (λ x. c ∷ x) (append_nothing s)

one_tag :
    (t : Tag) (pairs : List GoString)
    → IsTag t
    → tags_of (pair_text t ∷ pairs) ≡ tag_text t ∷ tags_of pairs
unfolding tags_of
one_tag (n, v) pairs (h, _) = rw (tags_of, cut_at_byte b'=' n v h) refl

last_tag :
    (f : ℕ) (t : Tag) → IsTag t → split_fuel (suc f) (pair_text t) (text ".__") ≡ pair_text t ∷ []
unfolding split_fuel
last_tag f t h = rw (split_fuel, h.1) refl

untagged : (name : GoString) → IsFreeOf (text ".__") name → separate_tags name ≡ (name, [])
unfolding separate_tags
untagged name h = rw (separate_tags, h) refl

-- The fuel of `split` is enough where there are no more tags than it.
split_tags :
    (f : ℕ) (t : Tag) (ts : List Tag)
    → All IsTag (t ∷ ts)
    → length ts ≤ f
    → split_fuel f (pair_text t ++ write_tags ts) (text ".__") ≡ map pair_text (t ∷ ts)
unfolding split_fuel write_tags
split_tags zero t [] h e = ap (λ x. x ∷ []) (append_nothing (pair_text t))
split_tags (suc f) t [] (h, _) e =
    ap (λ x. split_fuel (suc f) x (text ".__")) (append_nothing (pair_text t)) ∙ last_tag f t h
split_tags zero t (u ∷ ts) h e = absurd (omega (arith, e))
split_tags (suc f) t (u ∷ ts) (h, rest) e =
    rw (split_fuel, cut_at_tags (pair_text t) (pair_text u ++ write_tags ts) h.1)
      (ap (λ x. pair_text t ∷ x) (split_tags f u ts rest (omega (arith, e))))

tags_of-pairs : (ts : List Tag) → All IsTag ts → tags_of (map pair_text ts) ≡ map tag_text ts
unfolding tags_of
tags_of-pairs [] h = refl
tags_of-pairs (t ∷ ts) (h, rest) =
    one_tag t (map pair_text ts) h ∙ ap (λ x. tag_text t ∷ x) (tags_of-pairs ts rest)

-- A metric has fewer tags than its name has bytes.
few_tags : (ts : List Tag) → length ts ≤ length (write_tags ts)
unfolding write_tags
few_tags [] = omega arith
few_tags (t ∷ ts) = omega (arith, few_tags ts, length-append (pair_text t) (write_tags ts))

enough : (t : Tag) (ts : List Tag) → length ts ≤ length (pair_text t ++ write_tags ts)
enough t ts = omega (arith, few_tags ts, length-append (pair_text t) (write_tags ts))

-- The name that a metric is written with is taken apart.
separate_tags-write :
    (name : GoString) (ts : List Tag)
    → IsFreeOf (text ".__") name
    → All IsTag ts
    → separate_tags (name ++ write_tags ts) ≡ (name, map tag_text ts)
unfolding separate_tags split write_tags
separate_tags-write name [] h hs = ap separate_tags (append_nothing name) ∙ untagged name h
separate_tags-write name (t ∷ ts) h hs =
    rw
      (
        separate_tags,
        cut_at_tags name (pair_text t ++ write_tags ts) h,
        split_tags (length (pair_text t ++ write_tags ts)) t ts hs (enough t ts),
        tags_of-pairs (t ∷ ts) hs,
      )
      refl

-- A metric that is written as a name with tags, where the prefix of tags occurs neither in the name nor
-- in a tag and no tag's name has the sign of equality: the name is what the mogrifiers see, its first
-- match gives the new name, and the tags are all kept, in order and before those of the match.
pub mogrify-write :
    (mogrifier : List MogrifierEntry) (name : GoString) (ts : List Tag)
    → IsFreeOf (text ".__") name
    → All IsTag ts
    → mogrify mogrifier (name ++ write_tags ts) ≡ (
        let (mogrified, tags) = mogrify_first mogrifier name in
        (mogrified, map tag_text ts ++ tags))
unfolding mogrify
mogrify-write mogrifier name ts h hs = rw (separate_tags-write name ts h hs) refl
