-- ===== src/Config/Found.antt =====
-- A limit that a file configures is the one that a lookup of its keys finds
-- (src/config/config_impl.go, loadDescriptors and GetLimit).
use api_ratelimit.Common.{
  GoString, text, ◌==◌, eq_iff, and_then-returns, check-returns, returns, ◌≡◌, refl, Bool, true,
  false, not, Option, none, some, [], ◌++◌, arith,
}
use api_ratelimit.Utils.{LimitUnit}
use api_ratelimit.Config.Limit.{RateLimit}
use api_ratelimit.Config.Yaml.{YamlRateLimit, YamlDescriptors, no_items, item}
use api_ratelimit.Config.Tree.{empty_node, find, find-put, Node}
use api_ratelimit.Config.Load.{
  final_key, is_absent, add_descriptor, load_rate_limit, load_descriptors,
}

-- What an item of a file leaves behind when its load succeeds.
pub record Loaded (unit_value : GoString → Option LimitUnit) (file parent key value : GoString)
    (yaml : Option YamlRateLimit) (ds : YamlDescriptors) (shadow detailed : Bool)
    (rest : YamlDescriptors) (this last : Node) : Type 0 where
  pub limit : Option RateLimit
  pub sub : Node
  pub has_key : (key == []) ≡ false
  pub fresh : find (final_key key value) this.descriptors ≡ none
  pub limit_loaded :
      load_rate_limit unit_value file (parent ++ final_key key value) shadow detailed yaml
      ≡ returns limit
  pub sub_loaded :
      load_descriptors unit_value file ((parent ++ final_key key value) ++ text ".") ds empty_node
      ≡ returns sub
  pub rest_loaded :
      load_descriptors unit_value file parent rest
        (add_descriptor (final_key key value) limit sub this)
      ≡ returns last

absent_lem : (o : Option Node) → is_absent o ≡ true → o ≡ none
absent_lem none h = refl
absent_lem (some n) h = cc

not_lem : (b : Bool) → not b ≡ true → b ≡ false
not_lem b h = ground arith

module _ (unit_value : GoString → Option LimitUnit) (file : GoString) where
  pub load-Loaded :
      (parent key value : GoString) (yaml : Option YamlRateLimit) (ds : YamlDescriptors)
      (shadow detailed : Bool) (rest : YamlDescriptors) (this last : Node)
      → load_descriptors unit_value file parent (item key value yaml ds shadow detailed rest) this
        ≡ returns last
      → Loaded unit_value file parent key value yaml ds shadow detailed rest this last
  unfolding load_descriptors
  load-Loaded parent key value yaml ds shadow detailed rest this last h =
      let (a, ha, h₁) = and_then-returns _ _ h in
      let (b, hb, h₂) = and_then-returns _ _ h₁ in
      let (l, hl, h₃) = and_then-returns _ _ h₂ in
      let (s, hs, h₄) = and_then-returns _ _ h₃ in
      record {
        limit = l;
        sub = s;
        has_key = not_lem _ (check-returns _ _ ha);
        fresh = absent_lem _ (check-returns _ _ hb);
        limit_loaded = hl;
        sub_loaded = hs;
        rest_loaded = h₄;
      }

  -- An entry that is there stays there.
  pub find-load :
      (parent : GoString) (ds : YamlDescriptors) (this last : Node) (k : GoString) (n : Node)
      → load_descriptors unit_value file parent ds this ≡ returns last
      → find k this.descriptors ≡ some n
      → find k last.descriptors ≡ some n
  unfolding load_descriptors add_descriptor
  find-load parent no_items this last k n h g = ground arith
  find-load parent (item key value yaml ds shadow detailed rest) this last k n h g =
      let d = load-Loaded parent key value yaml ds shadow detailed rest this last h in
      find-load parent rest _ last k n d.rest_loaded (
        rw (find-put (final_key key value) k _ this.descriptors)
          (ground (arith, d.fresh, eq_iff (final_key key value) k)))
