-- ===== src/Config/Tree.antt =====
-- src/config/config_impl.go: the maps of descriptors of a loaded configuration.
use api_ratelimit.Common.{
  if◌then◌else◌, GoString, ◌==◌, eq_refl, eq_iff, ◌≡◌, refl, Bool, true, false, Option, none, some,
  List, [], arith,
}
use api_ratelimit.Config.Limit.{RateLimit}

-- config_impl.go, map[string]*rateLimitDescriptor: `child key descriptors limit wildcard_keys rest`
-- is the map with that entry, and each entry has the fields of rateLimitDescriptor.
pub data Children : Type 0 where
  leaf : Children
  child : GoString → Children → Option RateLimit → List GoString → Children → Children

-- config_impl.go, rateLimitDescriptor
pub record Node : Type 0 where
  pub descriptors : Children
  pub limit : Option RateLimit
  pub wildcard_keys : List GoString

abbrev pub empty_node : Node
empty_node = record { descriptors = leaf; limit = none; wildcard_keys = [] }

-- descriptors[key], `none` for nil
unfoldable pub find : GoString → Children → Option Node
find k leaf = none
find k (child j ds l ws rest) =
    if j == k
    then some (record { descriptors = ds; limit = l; wildcard_keys = ws })
    else find k rest

-- descriptors[key] = node
unfoldable pub put : GoString → Node → Children → Children
put k n leaf = child k n.descriptors n.limit n.wildcard_keys leaf
put k n (child j ds l ws rest) =
    if j == k
    then child k n.descriptors n.limit n.wildcard_keys rest
    else child j ds l ws (put k n rest)

-- len(descriptors) > 0
abbrev pub has_children : Children → Bool
has_children leaf = false
has_children (child _ _ _ _ _) = true

pub find-put :
    (k j : GoString) (n : Node) (m : Children)
    → find j (put k n m) ≡ (if k == j then some n else find j m)
unfolding find put
find-put k j n leaf = refl
find-put k j n (child i ds l ws rest) =
    ground (arith, eq_iff k j, eq_iff i k, eq_iff i j, find-put k j n rest)

pub find-put_self : (k : GoString) (n : Node) (m : Children) → find k (put k n m) ≡ some n
find-put_self k n m = rw (find-put, eq_refl k)
