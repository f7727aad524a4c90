-- ===== src/Provider/ClientNode.antt =====
-- src/provider/xds_grpc_sotw_provider.go, getClientNode: what the provider tells the xDS server of itself.
use api_ratelimit.Common.{
  if◌then◌else◌, All, GoString, text, ◌==◌, Dict, insert, lookup, lookup-insert, ◌≡◌, refl, sym, ap,
  ◌∙◌, Bool, true, false, Option, none, some, List, [], ◌∷◌, map,
}
use api_ratelimit.Common.Strings.{cut, split_byte, join}
use api_ratelimit.Config.Lookup.{or_else}
use api_ratelimit.Request.{Entry}
use api_ratelimit.Client.Flags.{IsWithout, pair_of, split-join}
use api_ratelimit.Godogstats.Tags.{IsFreeOf, cut_at_byte}
use api_ratelimit.Provider.Updates.{last_some, or_else_assoc}
use api_ratelimit.Settings.{Settings}

-- corev3.Node, as far as it is filled in: the fields of the metadata are values of strings.
pub record ClientNode : Type 0 where
  pub id : GoString
  pub metadata : Dict GoString

-- getClientNode: an entry of the metadata, as SplitN leaves it; one without `=` is left out
abbrev pub with_pair : Option (GoString × GoString) → Dict GoString → Dict GoString
with_pair none m = m
with_pair (some (key, value)) m = insert key value m

-- getClientNode: the loop over the entries
unfoldable pub metadata_of : List GoString → Dict GoString → Dict GoString
unfolding cut
metadata_of [] m = m
metadata_of (entry ∷ rest) m = metadata_of rest (with_pair (cut entry (text "=")) m)

module _ {C P F I : Type 0} where
  -- xds_grpc_sotw_provider.go, getClientNode
  unfoldable pub get_client_node : Settings C P F I → ClientNode
  unfolding metadata_of split_byte
  get_client_node s = record {
    id = s.config_grpc_xds_node_id;
    metadata = metadata_of (split_byte s.config_grpc_xds_node_metadata b',') [];
  }

-- An entry as the setting takes it: no comma, and no `=` in the key.
abbrev pub IsEntry : Entry → Type 0
IsEntry e = IsFreeOf (text "=") e.key × IsWithout b',' (pair_of e)

abbrev pub value_at : GoString → Entry → Option GoString
value_at k e = if e.key == k then some e.value else none

if-or_else :
    (b : Bool) (v : GoString) (x : Option GoString)
    → (if b then some v else x) ≡ or_else (if b then some v else none) x
if-or_else true v x = refl
if-or_else false v x = refl

lookup-metadata_of :
    (k : GoString) (es : List Entry) (m : Dict GoString)
    → All IsEntry es
    → lookup k (metadata_of (map pair_of es) m)
      ≡ or_else (last_some (map (value_at k) es)) (lookup k m)
unfolding metadata_of last_some
lookup-metadata_of k [] m h = refl
lookup-metadata_of k (e ∷ es) m ((free, plain), hs) =
    let others = last_some (map (value_at k) es) in
    ap (λ x. lookup k (metadata_of (map pair_of es) (with_pair x m)))
      (cut_at_byte b'=' e.key e.value free)
    ∙ lookup-metadata_of k es (insert e.key e.value m) hs
    ∙ ap (or_else others)
        (lookup-insert e.key k e.value m ∙ if-or_else (e.key == k) e.value (lookup k m))
    ∙ sym (or_else_assoc others (value_at k e) (lookup k m))

commas : (es : List Entry) → All IsEntry es → All (λ (x : Entry). IsWithout b',' (pair_of x)) es
commas [] h = tt
commas (e ∷ es) ((free, plain), hs) = (plain, commas es hs)

or_else-none : (x : Option GoString) → or_else x none ≡ x
or_else-none none = refl
or_else-none (some v) = refl

-- The setting `key=value,key=value,...` with at least one entry, whose keys have no comma and no `=`
-- and whose values have no comma: a key of the metadata has the value of its last entry, and there is
-- no other key.
pub lookup-get_client_node :
    {C P F I : Type 0} (s : Settings C P F I) (e : Entry) (es : List Entry) (k : GoString)
    → All IsEntry (e ∷ es)
    → s.config_grpc_xds_node_metadata ≡ join (map pair_of (e ∷ es)) (text ",")
    → lookup k (get_client_node s).metadata ≡ last_some (map (value_at k) (e ∷ es))
unfolding get_client_node lookup
lookup-get_client_node s e es k h written =
    ap (λ x. lookup k (metadata_of (split_byte x b',') [])) written
    ∙ ap (λ x. lookup k (metadata_of x [])) (split-join e es (commas (e ∷ es) h))
    ∙ lookup-metadata_of k (e ∷ es) [] h
    ∙ or_else-none (last_some (map (value_at k) (e ∷ es)))
