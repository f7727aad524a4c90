-- ===== src/Srv/Parts.antt =====
-- The names that `ParseSrv` of src/srv/srv.go takes apart.
use mathlib.Core.Path.{subst}
use api_ratelimit.Common.{
  if◌then◌else◌, Bool-cases, Option-cases, nat_eq, any, all, GoString, text, ℕ, ◌≡◌, refl, ap, ◌∙◌,
  ◌≢◌, ◌↔◌, inl, inr, Bool, true, false, not, ◌&&◌, Option, none, some, [], ◌∷◌, ◌++◌, arith,
}
use api_ratelimit.Common.Strings.{after_prefix, split}
use api_ratelimit.Srv.{
  is_line_end, push_group, or_longer, no_more, behind, shortest, group, to_end, match_parts,
  or_not_srv, parse_srv, Result, found, failed, SrvParts,
}

prefix_found : (p s : GoString) → after_prefix p (p ++ s) ≡ some s
unfolding after_prefix
prefix_found [] s = refl
prefix_found (c ∷ p) s = ground (arith, prefix_found p s)

prefix_sound : (p s : GoString) {r : GoString} → after_prefix p s ≡ some r → s ≡ p ++ r
unfolding after_prefix
prefix_sound [] s h = ground (arith, h)
prefix_sound (c ∷ p) [] h = cc
prefix_sound (c ∷ p) (d ∷ s) {r} h = ground (arith, h, prefix_sound p s {r = r})

-- A name of a service or of a protocol: not empty, with no dot and on one line.
abbrev pub is_label_byte : ℕ → Bool
is_label_byte c = not (nat_eq c b'.') && not (is_line_end c)

abbrev pub IsLabel : GoString → Type 0
IsLabel s = (s ≢ []) × (all is_label_byte s ≡ true)

module _ {B : Type 0} (sep : GoString) (next : GoString → Option B) where
  shortest_found :
      (g rest : GoString) {b : B}
      → all is_label_byte g ≡ true
      → next rest ≡ some b
      → shortest (b'.' ∷ sep) next (g ++ b'.' ∷ (sep ++ rest)) ≡ some (g, b)
  unfolding shortest after_prefix
  shortest_found [] rest {b} h e = rw (prefix_found sep rest, e) refl
  shortest_found (c ∷ g) rest {b} h e = ground (arith, h, shortest_found g rest {b = b})

  group_found :
      (g rest : GoString) {b : B}
      → IsLabel g
      → next rest ≡ some b
      → group (b'.' ∷ sep) next (g ++ b'.' ∷ (sep ++ rest)) ≡ some (g, b)
  unfolding group
  group_found [] rest (h, _) e = absurd (h refl)
  group_found (c ∷ g) rest {b} (_, h) e = ground (arith, h, e, shortest_found g rest {b = b})

-- The text of an SRV name.
abbrev pub srv_name : SrvParts → GoString
srv_name parts = b'_' ∷ (parts.service ++ b'.' ∷ (b'_' ∷ (parts.proto ++ b'.' ∷ parts.name)))

-- A host: not empty and on one line; it may have dots.
abbrev pub IsHost : GoString → Type 0
IsHost s = (s ≢ []) × (any is_line_end s ≡ false)

to_end-host : (s : GoString) → IsHost s → to_end s ≡ some s
unfolding to_end
to_end-host [] (h, _) = absurd (h refl)
to_end-host (c ∷ s) (_, h) = rw h refl

parse_srv-name :
    (parts : SrvParts)
    → IsLabel parts.service
    → IsLabel parts.proto
    → IsHost parts.name
    → parse_srv (srv_name parts) ≡ found parts
unfolding parse_srv match_parts after_prefix
parse_srv-name parts service proto host =
    rw
      (
        parse_srv,
        group_found (b'_' ∷ []) (group (text ".") to_end) parts.service
            (parts.proto ++ b'.' ∷ parts.name) service
            (group_found [] to_end parts.proto parts.name proto (to_end-host parts.name host)),
      )
      refl

abbrev pub Holds {ℓ} : {A : Type ℓ} → (A → Type 0) → Option A → Type 0
Holds P none = Unit
Holds P (some a) = P a

or_Holds {ℓ} :
    {A : Type ℓ} (P : A → Type 0) (a b : Option A) → Holds P a → Holds P b → Holds P (or_longer a b)
or_Holds P none b h g = g
or_Holds P (some a) b h g = h

Holds-map {ℓ} :
    {A : Type ℓ} {P Q : A → Type 0} → ((a : A) → P a → Q a) → (o : Option A) → Holds P o → Holds Q o
Holds-map f none h = h
Holds-map f (some a) h = f a h

-- What is behind a group is behind its separator.
module _ {B : Type 0} (sep : GoString) (next : GoString → Option B) where
  abbrev Grouped : GoString → GoString × B → Type 0
  Grouped s (g, b) = (rest : GoString) × (s ≡ g ++ (sep ++ rest)) × (next rest ≡ some b)

  behind_sound :
      (s : GoString) (o : Option GoString)
      → ((r : GoString) → o ≡ some r → s ≡ sep ++ r)
      → Holds (Grouped s) (behind next o)
  behind_sound s none h = tt
  behind_sound s (some rest) h = go (next rest) refl
    where
      go : (o : Option B) → next rest ≡ o → Holds (Grouped s) (no_more o)
      go none e = tt
      go (some b) e = (rest, h rest refl, e)

  push_sound :
      (c : ℕ) (s : GoString) (stop : Bool) (o : Option (GoString × B))
      → Holds (Grouped s) o
      → Holds (Grouped (c ∷ s)) (if stop then none else push_group c o)
  push_sound c s true o h = tt
  push_sound c s false none h = tt
  push_sound c s false (some (g, b)) (rest, e, f) = (rest, ap (λ x. c ∷ x) e, f)

  shortest_sound : (s : GoString) → Holds (Grouped s) (shortest sep next s)
  unfolding shortest
  shortest_sound [] = tt
  shortest_sound (c ∷ s) =
      or_Holds (Grouped (c ∷ s)) (behind next (after_prefix sep (c ∷ s))) _
        (behind_sound (c ∷ s) (after_prefix sep (c ∷ s)) (λ r. prefix_sound sep (c ∷ s)))
        (push_sound c s (is_line_end c) (shortest sep next s) (shortest_sound s))

  group_sound : (s : GoString) → Holds (Grouped s) (group sep next s)
  unfolding group
  group_sound [] = tt
  group_sound (c ∷ s) = push_sound c s (is_line_end c) (shortest sep next s) (shortest_sound s)

to_end_sound : (s : GoString) → Holds (λ r. s ≡ r) (to_end s)
unfolding to_end
to_end_sound [] = tt
to_end_sound (c ∷ s) = elim (Bool-cases (any is_line_end (c ∷ s))) [
  | inl e ↦ rw e tt
  | inr e ↦ rw e refl
]

abbrev Parted : GoString → GoString × (GoString × GoString) → Type 0
Parted srv (service, (proto, name)) =
    srv ≡ srv_name (record { service = service; proto = proto; name = name })

named_sound : (srv : GoString) → Holds (Parted srv) (match_parts srv)
unfolding match_parts
named_sound srv = elim (Option-cases (after_prefix (text "_") srv)) [
  | inl e ↦ rw e tt
  | inr (rest, e) ↦ rw e (
      Holds-map
        (λ (service, (proto, name)) (later, split, found_later).
          let (host, dot, found_host) =
            subst (Holds (Grouped (text ".") to_end later)) found_later
              (group_sound (text ".") to_end later) in
          let named = subst (Holds (λ r. host ≡ r)) found_host (to_end_sound host) in
          prefix_sound (text "_") srv e
          ∙ ap (λ x. b'_' ∷ x)
              (split
                ∙ ap (λ x. service ++ b'.' ∷ (b'_' ∷ x)) (dot ∙ ap (λ x. proto ++ b'.' ∷ x) named)))
        (group (text "._") (group (text ".") to_end) rest)
        (group_sound (text "._") (group (text ".") to_end) rest))
]

abbrev text_of : GoString → Result SrvParts → GoString
text_of srv (found parts) = srv_name parts
text_of srv (failed e) = srv

text_of_match :
    (srv : GoString) (o : Option (GoString × (GoString × GoString)))
    → Holds (Parted srv) o
    → srv ≡ text_of srv (or_not_srv srv o)
text_of_match srv none h = refl
text_of_match srv (some parts) h = h

srv_name-parse :
    (srv : GoString) (parts : SrvParts) → parse_srv srv ≡ found parts → srv ≡ srv_name parts
unfolding parse_srv
srv_name-parse srv parts h =
    text_of_match srv (match_parts srv) (named_sound srv) ∙ ap (text_of srv) h

-- Where the service and the protocol have no dot, none of the three parts is empty, and all are on one
-- line: a text is taken apart into the parts exactly when it is the name that is written of them.
pub parse_srv_iff :
    (srv : GoString) (parts : SrvParts)
    → IsLabel parts.service
    → IsLabel parts.proto
    → IsHost parts.name
    → (parse_srv srv ≡ found parts) ↔ (srv ≡ srv_name parts)
parse_srv_iff srv parts service proto host =
    (srv_name-parse srv parts, λ e. ap parse_srv e ∙ parse_srv-name parts service proto host)
