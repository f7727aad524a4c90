-- ===== src/Client/Flags.antt =====
-- What the flag of the descriptors reads (src/client_cmd/main.go).
use api_ratelimit.Common.{
  nat_eq, any, All, GoString, text, ℕ, ◌≡◌, refl, ap, ◌∙◌, Bool, false, none, List, [], ◌∷◌, ◌++◌,
  map, arith,
}
use api_ratelimit.Common.Strings.{split_byte, join}
use api_ratelimit.Request.{Entry, Descriptor}
use api_ratelimit.Srv.{found}
use api_ratelimit.Client.{entry_of_parts, entries_of, set_descriptors}

-- A text without a byte.
abbrev pub IsWithout : ℕ → GoString → Type 0
IsWithout sep s = any (λ c. nat_eq c sep) s ≡ false

-- An entry without the separators.
abbrev pub IsPlain : Entry → Type 0
IsPlain e =
    IsWithout b'=' e.key × IsWithout b'=' e.value × IsWithout b',' e.key × IsWithout b',' e.value

abbrev pub pair_of : Entry → GoString
pair_of e = e.key ++ b'=' ∷ e.value

any_append :
    (p : ℕ → Bool) (s t : GoString) → any p s ≡ false → any p t ≡ false → any p (s ++ t) ≡ false
any_append p [] t h g = g
any_append p (c ∷ s) t h g = ground (arith, any_append p s t, h, g)

split_nothing : (sep : ℕ) (s : GoString) → IsWithout sep s → split_byte s sep ≡ s ∷ []
unfolding split_byte
split_nothing sep [] h = refl
split_nothing sep (c ∷ s) h = ground (arith, h, split_nothing sep s)

split_first :
    (sep : ℕ) (s t : GoString)
    → IsWithout sep s
    → split_byte (s ++ sep ∷ t) sep ≡ s ∷ split_byte t sep
unfolding split_byte
split_first sep [] t h = ground arith
split_first sep (c ∷ s) t h = ground (arith, h, split_first sep s t)

pair_comma_lem : (e : Entry) → IsPlain e → IsWithout b',' (pair_of e)
pair_comma_lem e (a, b, k, v) = any_append _ e.key (b'=' ∷ e.value) k v

one_entry : (e : Entry) → IsPlain e → entry_of_parts (split_byte (pair_of e) b'=') ≡ found e
one_entry e (a, b, k, v) =
    ap entry_of_parts
      (split_first b'=' e.key e.value a ∙ ap (λ x. e.key ∷ x) (split_nothing b'=' e.value b))

entries_of-pairs : (es : List Entry) → All IsPlain es → entries_of (map pair_of es) ≡ found es
unfolding entries_of
entries_of-pairs [] h = refl
entries_of-pairs (e ∷ es) (h, hs) = rw (one_entry e h, entries_of-pairs es hs) refl

pub split-join :
    (e : Entry) (es : List Entry)
    → All (λ (x : Entry). IsWithout b',' (pair_of x)) (e ∷ es)
    → split_byte (join (map pair_of (e ∷ es)) (text ",")) b',' ≡ map pair_of (e ∷ es)
unfolding join
split-join e [] (h, hs) = split_nothing b',' (pair_of e) h
split-join e (f ∷ es) (h, hs) =
    split_first b',' (pair_of e) (join (map pair_of (f ∷ es)) (text ",")) h
    ∙ ap (λ x. pair_of e ∷ x) (split-join f es hs)

commas : (es : List Entry) → All IsPlain es → All (λ (x : Entry). IsWithout b',' (pair_of x)) es
commas [] h = tt
commas (e ∷ es) (h, hs) = (pair_comma_lem e h, commas es hs)

-- A descriptor as it is written in a flag.
abbrev pub flag_text : Entry → List Entry → GoString
flag_text e es = join (map pair_of (e ∷ es)) (text ",")

-- A flag `key=value,key=value,...` with at least one entry, whose keys and values have no comma and no
-- sign of equality, adds the descriptor of these entries behind those of the flags before it.
pub set_descriptors-flag :
    (e : Entry) (es : List Entry) (descriptors : List Descriptor)
    → All IsPlain (e ∷ es)
    → set_descriptors (flag_text e es) descriptors
      ≡ found (descriptors ++ record { entries = e ∷ es; limit = none } ∷ [])
unfolding set_descriptors
set_descriptors-flag e es descriptors h =
    rw (split-join e es (commas (e ∷ es) h), entries_of-pairs (e ∷ es) h) refl
