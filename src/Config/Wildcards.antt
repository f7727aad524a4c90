-- ===== src/Config/Wildcards.antt =====
-- Descriptors whose key ends with `*` (src/config/config_impl.go, loadDescriptors and GetLimit).
use api_ratelimit.Config.Found.{load-Loaded}
use api_ratelimit.Config.Lookup.{find_wildcard, full_key, find_next}
use api_ratelimit.Config.Yaml.{YamlDescriptors, no_items, item}
use api_ratelimit.Request.{Entry}
use api_ratelimit.Utils.{LimitUnit}
use api_ratelimit.Common.Strings.{has_prefix, trim_suffix}
use api_ratelimit.Common.{
  Bool-cases, any, All, GoString, text, ◌==◌, eq_refl, eq_sound, returns-eq, returns, ◌≡◌, refl,
  sym, ap, ◌∙◌, ◌⊎◌, inl, inr, true, false, Option, none, some, List, [], ◌∷◌, ◌++◌, arith,
}
use mathlib.Core.Path.{subst}
use api_ratelimit.Config.Limit.{RateLimit}
use api_ratelimit.Config.Tree.{empty_node, find, put, find-put, Children, Node}
use api_ratelimit.Config.Load.{final_key, ends_with_star, add_descriptor, load_descriptors}

abbrev IsFound : GoString → Children → Type 0
IsFound k m = (n : Node) × (find k m ≡ some n)

abbrev IsIn : GoString → List GoString → Type 0
IsIn w ws = any (λ v. v == w) ws ≡ true

-- The wildcard keys of a descriptor are the keys below it that end with `*`.
record IsWild (n : Node) : Type 0 where
  sound : All (λ w. (ends_with_star w ≡ true) × IsFound w n.descriptors) n.wildcard_keys
  complete :
      (w : GoString) → ends_with_star w ≡ true → IsFound w n.descriptors → IsIn w n.wildcard_keys

-- A descriptor of a loaded tree, the root included.
pub data Below (m : Node) : Node → Type 0 where
  root : Below m m
  under : {n c : Node} (k : GoString) → find k n.descriptors ≡ some c → Below m c → Below m n

abbrev AllWild : Node → Type 0
AllWild n = (m : Node) → Below m n → IsWild m

All-weaker :
    (P Q : GoString → Type 0) (ws : List GoString)
    → ((w : GoString) → P w → Q w)
    → All P ws
    → All Q ws
All-weaker P Q [] f h = tt
All-weaker P Q (w ∷ ws) f (h, hs) = (f w h, All-weaker P Q ws f hs)

All-snoc :
    (P : GoString → Type 0) (ws : List GoString) (w : GoString)
    → All P ws
    → P w
    → All P (ws ++ w ∷ [])
All-snoc P [] w h k = (k, tt)
All-snoc P (v ∷ ws) w (h, hs) k = (h, All-snoc P ws w hs k)

All-IsIn : (P : GoString → Type 0) (ws : List GoString) (w : GoString) → All P ws → IsIn w ws → P w
All-IsIn P [] w h i = absurd (cc)
All-IsIn P (v ∷ ws) w (h, hs) i = elim (Bool-cases (v == w)) [
  | inl e ↦ subst P (eq_sound v w e) h
  | inr e ↦ All-IsIn P ws w hs (ground (arith, e, i))
]

IsIn-snoc : (ws : List GoString) (v w : GoString) → IsIn w ws → IsIn w (ws ++ v ∷ [])
IsIn-snoc [] v w i = absurd (cc)
IsIn-snoc (u ∷ ws) v w i = elim (Bool-cases (u == w)) [
  | inl e ↦ rw e refl
  | inr e ↦ rw e (IsIn-snoc ws v w (ground (arith, e, i)))
]

IsIn-last : (ws : List GoString) (v w : GoString) → (v == w) ≡ true → IsIn w (ws ++ v ∷ [])
IsIn-last [] v w e = rw e refl
IsIn-last (u ∷ ws) v w e = ground (arith, IsIn-last ws v w e)

module _ (k : GoString) (l : Option RateLimit) (sub this : Node) where
  abbrev added : Node
  added = record sub { limit = l }

  put-IsFound :
      (w : GoString) → IsFound w this.descriptors → IsFound w (put k added this.descriptors)
  put-IsFound w (n, e) = elim (Bool-cases (k == w)) [
    | inl t ↦ (added, rw (find-put k w added this.descriptors, t) refl)
    | inr t ↦ (n, rw (find-put k w added this.descriptors, t) e)
  ]

  put-back :
      (w : GoString) (n : Node)
      → find w (put k added this.descriptors) ≡ some n
      → (((k == w) ≡ true) × (n ≡ added))
        ⊎ (((k == w) ≡ false) × (find w this.descriptors ≡ some n))
  put-back w n e =
      let g = sym (find-put k w added this.descriptors) ∙ e in
      elim (Bool-cases (k == w)) [
        | inl t ↦ inl (t, ground (arith, g, t))
        | inr t ↦ inr (t, ground (arith, g, t))
      ]

  add-IsWild : IsWild this → IsWild (add_descriptor k l sub this)
  unfolding add_descriptor
  add-IsWild h = elim (Bool-cases (ends_with_star k)) [
    | inl star ↦ record {
      sound = rw star (
          All-snoc _ this.wildcard_keys k (older h)
            (star, (added, rw (find-put k k added this.descriptors, eq_refl k) refl)));
      complete = λ w s f. rw star (elim (put-back w f.0 f.1) [
        | inl (t, e) ↦ IsIn-last this.wildcard_keys k w t
        | inr (t, e) ↦ IsIn-snoc this.wildcard_keys k w (h.complete w s (f.0, e))
      ]);
    }
    | inr plain ↦ record {
      sound = rw plain (older h);
      complete = λ w s f. rw plain (elim (put-back w f.0 f.1) [
        | inl (t, e) ↦ absurd (ground (arith, ap ends_with_star (eq_sound k w t), s, plain))
        | inr (t, e) ↦ h.complete w s (f.0, e)
      ]);
    }
  ]
    where
      older :
          IsWild this
          → All
              (λ w. (ends_with_star w ≡ true) × IsFound w (put k added this.descriptors))
              this.wildcard_keys
      older h = All-weaker _ _ this.wildcard_keys (λ w f. (f.0, put-IsFound w f.1)) h.sound

  added-AllWild : AllWild sub → (m x : Node) → x ≡ added → Below m x → IsWild m
  added-AllWild h m x e root =
      let w = h sub root in subst IsWild (sym e) (record { sound = w.sound; complete = w.complete })
  added-AllWild h m x e (under {c = c} j f b) =
      h m (under j (subst (λ (y : Node). find j y.descriptors ≡ some c) e f) b)

  add-AllWild :
      AllWild this
      → AllWild sub
      → (m x : Node) → x ≡ add_descriptor k l sub this
      → Below m x
      → IsWild m
  unfolding add_descriptor
  add-AllWild h g m x e root = subst IsWild (sym e) (add-IsWild (h this root))
  add-AllWild h g m x e (under {c = c} j f b) =
      elim (put-back j c (subst (λ (y : Node). find j y.descriptors ≡ some c) e f)) [
        | inl (t, a) ↦ added-AllWild g m c a b
        | inr (t, found) ↦ h m (under j found b)
      ]

empty-AllWild : (m x : Node) → x ≡ empty_node → Below m x → IsWild m
unfolding find
empty-AllWild m x e root =
    subst IsWild (sym e) (record { sound = tt; complete = λ w s f. absurd (cc (f.1)) })
empty-AllWild m x e (under {c = c} j f b) =
    let none_there : none ≡ some c = subst (λ (y : Node). find j y.descriptors ≡ some c) e f in
    absurd (cc none_there)

-- A wildcard key begins a text.
abbrev pub Covers : GoString → GoString → Type 0
Covers w key = has_prefix key (trim_suffix w (text "*")) ≡ true

first_wildcard :
    (key w : GoString) (ws : List GoString)
    → Covers w key
    → IsIn w ws
    → (v : GoString) × (find_wildcard key ws ≡ some v) × IsIn v ws × Covers v key
unfolding find_wildcard
first_wildcard key w [] covers i = absurd (cc)
first_wildcard key w (u ∷ ws) covers i =
    elim (Bool-cases (has_prefix key (trim_suffix u (text "*")))) [
      | inl t ↦ (u, rw (find_wildcard, t) refl, rw (eq_refl u) refl, t)
      | inr t ↦ elim (Bool-cases (u == w)) [
        | inl e ↦ absurd (
            ground (
              arith,
              ap (λ (x : GoString). has_prefix key (trim_suffix x (text "*"))) (eq_sound u w e),
              t,
              covers,
            ))
        | inr e ↦
            let (v, f, j, c) = first_wildcard key w ws covers (ground (arith, e, i)) in
            (v, rw (find_wildcard, t) f, ground (arith, j), c)
      ]
    ]

module _ (unit_value : GoString → Option LimitUnit) (file : GoString) where
  load-AllWild :
      (parent : GoString) (ds : YamlDescriptors) (this last : Node)
      → load_descriptors unit_value file parent ds this ≡ returns last
      → AllWild this
      → AllWild last
  unfolding load_descriptors
  load-AllWild parent no_items this last h w = subst AllWild (returns-eq h) w
  load-AllWild parent (item key value yaml ds shadow detailed rest) this last h w =
      let d =
        load-Loaded unit_value file parent key value yaml ds shadow detailed rest this last h in
      let sub =
        load-AllWild ((parent ++ final_key key value) ++ text ".") ds empty_node d.sub d.sub_loaded
          (λ m b. empty-AllWild m empty_node refl b) in
      load-AllWild parent rest (add_descriptor (final_key key value) d.limit d.sub this) last
        d.rest_loaded (λ m b. add-AllWild (final_key key value) d.limit d.sub this w sub m _ refl b)

  -- At each descriptor of a loaded file: an entry whose key and value have no descriptor of their own, and
  -- begin with the text of a descriptor whose key ends with `*`, is matched by such a descriptor,
  -- and not by the one for its key alone.
  pub load-find_next :
      (parent : GoString) (ds : YamlDescriptors) (last m : Node) (e : Entry) (w : GoString)
      (n : Node)
      → load_descriptors unit_value file parent ds empty_node ≡ returns last
      → Below m last
      → find (full_key e) m.descriptors ≡ none
      → find w m.descriptors ≡ some n
      → ends_with_star w ≡ true
      → Covers w (full_key e)
      → (v : GoString) × (c : Node) × (find_next e m ≡ some (v, c))
        × (find v m.descriptors ≡ some c)
        × (ends_with_star v ≡ true)
        × Covers v (full_key e)
  unfolding find_next
  load-find_next parent ds last m e w n loaded below missing there star covers =
      let wild =
        load-AllWild parent ds empty_node last loaded (λ m b. empty-AllWild m empty_node refl b) m
          below in
      let (v, f, i, c) =
        first_wildcard (full_key e) w m.wildcard_keys covers (wild.complete w star (n, there)) in
      let (star', (d, g)) = All-IsIn _ m.wildcard_keys v wild.sound i in
      (v, d, rw (missing, f, g) refl, g, star', c)
