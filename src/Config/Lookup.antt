-- ===== src/Config/Lookup.antt =====
-- src/config/config_impl.go, GetLimit. A limit that the lookup returns is either a new one, or the
-- one that the configuration holds: a pointer, given by the keys that lead to it.
use api_ratelimit.Common.{
  if◌then◌else◌, GoString, text, ◌==◌, Dict, insert, lookup, Bool, true, false, not, Option, none,
  some, List, [], ◌∷◌, ◌++◌,
}
use api_ratelimit.Common.Strings.{has_prefix, trim_suffix}
use api_ratelimit.Stats.{Calls, new_stats, new_domain_stats, RateLimitStats}
use api_ratelimit.Request.{Entry, LimitOverride, Descriptor}
use api_ratelimit.Config.Limit.{new_rate_limit, RateLimit}
use api_ratelimit.Config.Tree.{find, has_children, Children, leaf, child, Node}

-- The pointer that `GetLimit` returns.
pub data LimitRef : Type 0 where
  nil_limit : LimitRef
  new_limit : RateLimit → LimitRef
  shared : List GoString → LimitRef

-- GetLimit: the first wildcard key whose text before `*` begins the key
unfoldable pub find_wildcard : GoString → List GoString → Option GoString
find_wildcard key [] = none
find_wildcard key (w ∷ ws) =
    if has_prefix key (trim_suffix w (text "*")) then some w else find_wildcard key ws

abbrev at_key : GoString → Option Node → Option (GoString × Node)
at_key k none = none
at_key k (some n) = some (k, n)

abbrev pub or_else {ℓ} : {A : Type ℓ} → Option A → Option A → Option A
or_else none b = b
or_else (some a) b = some a

abbrev find_at : Children → Option GoString → Option (GoString × Node)
find_at m none = none
find_at m (some w) = at_key w (find w m)

abbrev pub full_key : Entry → GoString
full_key e = e.key ++ b'_' ∷ e.value

-- GetLimit: the descriptor of an entry, by key and value, by wildcard, and by key, with its key.
unfoldable pub find_next : Entry → Node → Option (GoString × Node)
unfolding find_wildcard
find_next e this = or_else (at_key (full_key e) (find (full_key e) this.descriptors)) (
    or_else (find_at this.descriptors (find_wildcard (full_key e) this.wildcard_keys))
      (at_key e.key (find e.key this.descriptors)))

-- What the loop of `GetLimit` leaves: the limit with its place, the key of the detailed metric, and
-- whether the loop has copied a limit with detailed metric.
pub record Walk : Type 0 where
  pub found : Option RateLimit
  pub path : List GoString
  pub detailed_key : GoString
  pub copied : Bool

-- GetLimit: the loop over the entries, from a descriptor and the detailed metric so far.
unfoldable pub walk : List Entry → Node → GoString → Walk
unfolding find_next
walk [] this key = record { found = none; path = []; detailed_key = key; copied = false }
walk (e ∷ []) this key =
    let key' = key ++ b'.' ∷ full_key e in
    elim (find_next e this) [
      | none ↦ record { found = none; path = []; detailed_key = key'; copied = false }
      | some (k, n) ↦ record {
        found = n.limit;
        path = k ∷ [];
        detailed_key = key';
        copied = not (has_children n.descriptors);
      }
    ]
walk (e ∷ f ∷ es) this key =
    let key' = key ++ b'.' ∷ full_key e in
    elim (find_next e this) [
      | none ↦ record { found = none; path = []; detailed_key = key'; copied = false }
      | some (k, n) ↦
          let rest = walk (f ∷ es) n key' in
          if has_children n.descriptors
          then record rest { path = k ∷ rest.path }
          else record { found = none; path = k ∷ []; detailed_key = key'; copied = true }
    ]

-- rateLimit.Stats = stats, through the pointer: at the entry of the last key of the path
unfoldable pub set_stats : List GoString → RateLimitStats → Children → Children
set_stats [] stats m = m
set_stats (k ∷ ks) stats leaf = leaf
set_stats (k ∷ ks) stats (child j ds none ws rest) =
    if j == k
    then child j (set_stats ks stats ds) none ws rest
    else child j ds none ws (set_stats (k ∷ ks) stats rest)
set_stats (k ∷ []) stats (child j ds (some l) ws rest) =
    if j == k
    then child j ds (some (record l { stats = stats })) ws rest
    else child j ds (some l) ws (set_stats (k ∷ []) stats rest)
set_stats (k ∷ i ∷ ks) stats (child j ds (some l) ws rest) =
    if j == k
    then child j (set_stats (i ∷ ks) stats ds) (some l) ws rest
    else child j ds (some l) ws (set_stats (k ∷ i ∷ ks) stats rest)

-- The limit that a path leads to.
unfoldable pub limit_at : List GoString → Children → Option RateLimit
limit_at [] m = none
limit_at (k ∷ []) m = elim (find k m) [ none ↦ none | some n ↦ n.limit ]
limit_at (k ∷ j ∷ ks) m = elim (find k m) [ none ↦ none | some n ↦ limit_at (j ∷ ks) n.descriptors ]

-- config_impl.go, descriptorKey: the loop
unfoldable pub descriptor_key_from : GoString → List Entry → GoString
descriptor_key_from acc [] = acc
descriptor_key_from acc (e ∷ es) =
    let acc' = if acc == [] then [] else acc ++ text "." in
    let keyed = acc' ++ e.key in
    descriptor_key_from (if e.value == [] then keyed else keyed ++ b'_' ∷ e.value) es

unfoldable pub descriptor_key : GoString → Descriptor → GoString
unfolding descriptor_key_from
descriptor_key domain d = domain ++ b'.' ∷ descriptor_key_from [] d.entries

-- The copy of a limit with detailed metric that the loop makes at a leaf, with the statistics that
-- the end of `GetLimit` gives it.
unfoldable pub detailed_copy : RateLimit → GoString → RateLimit
unfolding new_rate_limit
detailed_copy l key =
    let copy =
      new_rate_limit l.limit.requests_per_unit l.limit.unit (new_stats l.full_key) l.unlimited
        l.shadow_mode l.name l.replaces l.detailed_metric in
    record copy { stats = new_stats key }

-- The end of `GetLimit`: what it returns, and the domain as it leaves it.
unfoldable pub finish : Walk → Node → LimitRef × Node
unfolding detailed_copy
finish w this = elim w.found [
  | none ↦ (nil_limit, this)
  | some l ↦
      if l.detailed_metric
      then (if w.copied then (new_limit (detailed_copy l w.detailed_key), this) else (
        shared w.path,
        record this { descriptors = set_stats w.path (new_stats w.detailed_key) this.descriptors },
      ))
      else (shared w.path, this)
]

-- The limit that comes with a descriptor.
unfoldable pub override_limit : GoString → Descriptor → LimitOverride → RateLimit
unfolding new_rate_limit descriptor_key
override_limit domain d o =
    new_rate_limit o.requests_per_unit o.unit (new_stats (descriptor_key domain d)) false false []
      [] false

-- GetLimit in a domain that is configured
unfoldable pub get_limit_in : GoString → Descriptor → Node → LimitRef × Node
unfolding walk finish override_limit
get_limit_in domain d this = elim d.limit [
  | some o ↦ (new_limit (override_limit domain d o), this)
  | none ↦ finish (walk d.entries this domain) this
]

-- config_impl.go, GetLimit: the pointer, the configuration, and the calls of counters.
unfoldable pub get_limit : Dict Node → GoString → Descriptor → Calls → LimitRef × Dict Node × Calls
unfolding get_limit_in
get_limit domains domain d calls = elim (lookup domain domains) [
  | none ↦ (nil_limit, domains, (new_domain_stats domain, 1) ∷ calls)
  | some this ↦
      let (ref, this') = get_limit_in domain d this in (ref, insert domain this' domains, calls)
]

-- The limit behind a pointer.
unfoldable pub deref : Dict Node → GoString → LimitRef → Option RateLimit
unfolding limit_at
deref domains domain nil_limit = none
deref domains domain (new_limit l) = some l
deref domains domain (shared path) = elim (lookup domain domains) [
  | none ↦ none
  | some this ↦ limit_at path this.descriptors
]

-- config_impl.go, IsEmptyDomains
unfoldable pub is_empty_domains : Dict Node → Bool
is_empty_domains [] = true
is_empty_domains (d ∷ ds) = false
