-- ===== src/Config/RoundTrip.antt =====
-- A limit that a file configures is the one that a lookup of its keys and values finds
-- (src/config/config_impl.go, loadDescriptors and GetLimit).
use api_ratelimit.Common.Strings.{to_upper}
use api_ratelimit.Common.{
  GoString, text, and_then-returns, returns, ◌≡◌, refl, sym, ap, ◌∙◌, ◌≢◌, Bool, true, not, Option,
  none, some, List, [], ◌∷◌, ◌++◌, map, arith,
}
use api_ratelimit.Utils.{LimitUnit}
use api_ratelimit.Stats.{new_stats}
use api_ratelimit.Config.Load.{
  final_key, or_zero, is_valid_unit, check_unit, check_replaces, add_descriptor, yaml_limit,
  load_rate_limit, load_descriptors,
}
use api_ratelimit.Request.{Entry}
use api_ratelimit.Config.Limit.{RateLimit}
use api_ratelimit.Config.Yaml.{YamlRateLimit, YamlDescriptors, item}
use api_ratelimit.Config.Tree.{
  empty_node, find, has_children, find-put_self, Children, leaf, child, Node,
}
use api_ratelimit.Config.Lookup.{full_key, find_next, walk}
use api_ratelimit.Config.Found.{load-Loaded, find-load, Loaded}

-- `Configured parent ds es full yaml shadow detailed`: in the file's descriptors `ds`, the entries
-- `es` lead to a descriptor with the limit `yaml`, each by a key and a value that is not empty; its
-- full key below `parent` is `full`.
pub data Configured
    : GoString
      → YamlDescriptors
      → List Entry
      → GoString
      → YamlRateLimit
      → Bool
      → Bool
      → Type 0 where
  here :
      {parent key value : GoString} {yaml : YamlRateLimit} {ds : YamlDescriptors}
      {shadow detailed : Bool} {rest : YamlDescriptors}
      → value ≢ []
      → Configured parent
          (item key value (some yaml) ds shadow detailed rest)
          (record { key = key; value = value } ∷ [])
          (parent ++ final_key key value)
          yaml
          shadow
          detailed
  below :
      {parent key value : GoString} {limit : Option YamlRateLimit} {ds : YamlDescriptors}
      {shadow detailed : Bool} {rest : YamlDescriptors} {e : Entry} {es : List Entry}
      {full : GoString} {yaml : YamlRateLimit} {s d : Bool}
      → value ≢ []
      → Configured ((parent ++ final_key key value) ++ text ".") ds (e ∷ es) full yaml s d
      → Configured parent
          (item key value limit ds shadow detailed rest)
          (record { key = key; value = value } ∷ e ∷ es)
          full
          yaml
          s
          d
  later :
      {parent key value : GoString} {limit : Option YamlRateLimit} {ds : YamlDescriptors}
      {shadow detailed : Bool} {rest : YamlDescriptors} {es : List Entry} {full : GoString}
      {yaml : YamlRateLimit} {s d : Bool}
      → Configured parent rest es full yaml s d
      → Configured parent (item key value limit ds shadow detailed rest) es full yaml s d

-- The limit has what the file says.
pub record IsFrom (unit_value : GoString → Option LimitUnit) (full : GoString)
    (yaml : YamlRateLimit) (shadow detailed : Bool) (l : RateLimit) : Type 0 where
  pub named : l.full_key ≡ full
  pub counters : l.stats ≡ new_stats full
  pub requests : l.limit.requests_per_unit ≡ yaml.requests_per_unit
  pub measured : l.limit.unit ≡ or_zero (unit_value (to_upper yaml.unit))
  pub has_unit : is_valid_unit (some l.limit.unit) ≡ not yaml.unlimited
  pub limited : l.unlimited ≡ yaml.unlimited
  pub name : l.name ≡ yaml.name
  pub replaced : l.replaces ≡ map (λ r. r.name) yaml.replaces
  pub shadowed : l.shadow_mode ≡ shadow
  pub detail : l.detailed_metric ≡ detailed

final_key-full_key : (key value : GoString) → value ≢ [] → final_key key value ≡ key ++ b'_' ∷ value
unfolding final_key
final_key-full_key key [] h = absurd (h refl)
final_key-full_key key (c ∷ value) h = refl

has_children_lem :
    (k : GoString) (m : Children) {n : Node} → find k m ≡ some n → has_children m ≡ true
unfolding find
has_children_lem k leaf h = cc
has_children_lem k (child j ds l ws rest) h = refl

returns_injective : {a b : Option RateLimit} → returns a ≡ returns b → a ≡ b
returns_injective h = cc

walk_one :
    (e : Entry) (this n : Node) (k metric : GoString)
    → find_next e this ≡ some (k, n)
    → (walk (e ∷ []) this metric).found ≡ n.limit
unfolding walk
walk_one e this n k metric h = rw (h, walk)

walk_more :
    (e f : Entry) (es : List Entry) (this n : Node) (k metric : GoString)
    → find_next e this ≡ some (k, n)
    → has_children n.descriptors ≡ true
    → (walk (e ∷ f ∷ es) this metric).found ≡ (walk (f ∷ es) n (metric ++ b'.' ∷ full_key e)).found
unfolding walk
walk_more e f es this n k metric h more = rw (h, walk) (rw more)

-- The lookup below a descriptor does not read its own limit.
walk-limit :
    (es : List Entry) (n : Node) (l : Option RateLimit) (metric : GoString)
    → walk es (record n { limit = l }) metric ≡ walk es n metric
unfolding walk find_next
walk-limit [] n l metric = refl
walk-limit (e ∷ []) n l metric = refl
walk-limit (e ∷ f ∷ es) n l metric = refl

checked_unit :
    (file : GoString) (yaml : YamlRateLimit) (value : Option LimitUnit)
    → check_unit file yaml (is_valid_unit value) ≡ returns tt
    → is_valid_unit (some (or_zero value)) ≡ not yaml.unlimited
unfolding check_unit
checked_unit file yaml none h = ground (arith, h)
checked_unit file yaml (some u) h = ground (arith, h)

module _ (unit_value : GoString → Option LimitUnit) (file : GoString) where
  -- The load of a limit that succeeds keeps the fields of the file.
  load_rate_limit-IsFrom :
      (full : GoString) (yaml : YamlRateLimit) (shadow detailed : Bool) (o : Option RateLimit)
      → load_rate_limit unit_value file full shadow detailed (some yaml) ≡ returns o
      → (l : RateLimit) × (o ≡ some l) × IsFrom unit_value full yaml shadow detailed l
  unfolding load_rate_limit new_stats
  load_rate_limit-IsFrom full yaml shadow detailed o h =
      let value = unit_value (to_upper yaml.unit) in
      let (_, checked, h₁) = and_then-returns (check_unit file yaml (is_valid_unit value)) _ h in
      let (_, _, h₂) = and_then-returns (check_replaces file yaml.name yaml.replaces) _ h₁ in
      (
        yaml_limit full shadow detailed value yaml,
        returns_injective (sym h₂),
        record {
          named = refl;
          counters = refl;
          requests = refl;
          measured = refl;
          has_unit = checked_unit file yaml value checked;
          limited = refl;
          name = refl;
          replaced = refl;
          shadowed = refl;
          detail = refl;
        },
      )

  -- The entry of a descriptor is there, with its limit, at the end of the load.
  find-load_here :
      {parent key value : GoString} {yaml : Option YamlRateLimit} {ds : YamlDescriptors}
      {shadow detailed : Bool} {rest : YamlDescriptors} {this last : Node}
      (d : Loaded unit_value file parent key value yaml ds shadow detailed rest this last)
      → find (final_key key value) last.descriptors ≡ some (record d.sub { limit = d.limit })
  unfolding add_descriptor
  find-load_here {parent} {key} {value} {yaml} {ds} {shadow} {detailed} {rest} {this} {last} d =
      find-load unit_value file parent rest _ last _ _ d.rest_loaded (find-put_self _ _ _)

  find_next-load :
      {parent key value : GoString} {yaml : Option YamlRateLimit} {ds : YamlDescriptors}
      {shadow detailed : Bool} {rest : YamlDescriptors} {this last : Node}
      (d : Loaded unit_value file parent key value yaml ds shadow detailed rest this last)
      → value ≢ []
      → find_next (record { key = key; value = value }) last
        ≡ some (key ++ b'_' ∷ value, record d.sub { limit = d.limit })
  unfolding find_next
  find_next-load {key = key} {value = value} d h =
      ground (arith, find-load_here d, final_key-full_key key value h)

  abbrev pub Finds : GoString → YamlRateLimit → Bool → Bool → Node → List Entry → GoString → Type 0
  Finds full yaml s d last es metric =
      (has_children last.descriptors ≡ true)
      × ((l : RateLimit) × ((walk es last metric).found ≡ some l)
          × IsFrom unit_value full yaml s d l)

  -- Where the load of descriptors succeeds, the entries that lead through the file to a limit, by keys
  -- and values that are not empty, lead through the loaded maps to a limit with what the file says. Its unit is
  -- the one that the file names, and a valid one exactly if the limit is not unlimited.
  pub walk-load :
      {parent : GoString} {ds : YamlDescriptors} {es : List Entry} {full : GoString}
      {yaml : YamlRateLimit} {s d : Bool} (this last : Node) (metric : GoString)
      → Configured parent ds es full yaml s d
      → load_descriptors unit_value file parent ds this ≡ returns last
      → Finds full yaml s d last es metric
  walk-load this last metric (here v) h =
      let g = load-Loaded unit_value file _ _ _ _ _ _ _ _ this last h in
      let (l, e, f) = load_rate_limit-IsFrom _ _ _ _ _ g.limit_loaded in
      (
        has_children_lem _ _ (find-load_here g),
        (l, walk_one _ last _ _ metric (find_next-load g v) ∙ e, f),
      )
  walk-load this last metric (below {e = e} {es = es} v c) h =
      let g = load-Loaded unit_value file _ _ _ _ _ _ _ _ this last h in
      let (more, (l, found, f)) = walk-load empty_node g.sub _ c g.sub_loaded in
      (
        has_children_lem _ _ (find-load_here g),
        (
          l,
          walk_more _ e es last _ _ metric (find_next-load g v) more
              ∙ (ap (λ w. w.found) (walk-limit (e ∷ es) g.sub g.limit _) ∙ found),
          f,
        ),
      )
  walk-load this last metric (later c) h =
      let g = load-Loaded unit_value file _ _ _ _ _ _ _ _ this last h in
      walk-load _ last metric c g.rest_loaded
