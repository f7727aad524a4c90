-- ===== src/Service/Codes.antt =====
-- The overall code and the descriptor of the headers (src/service/ratelimit.go).
use api_ratelimit.Common.{
  length, All, ℕ, ◌≤◌, ◌≡◌, refl, ◌⊎◌, inl, inr, Bool, true, false, not, ◌&&◌, ◌||◌, Option, none,
  some, List, [], ◌∷◌, arith,
}
use api_ratelimit.Limiter.{Code, ok, over_limit, DescriptorStatus}
use api_ratelimit.Service.Worker.{
  max_uint32, is_over_limit_code, has_limit, initial_tally, track_minimum, track_code, tally, Tally,
}

-- Some descriptor that is not unlimited is over its limit.
abbrev pub any_over_limit : List Bool → List DescriptorStatus → Bool
any_over_limit (u ∷ us) (s ∷ ss) = (not u && is_over_limit_code s.code) || any_over_limit us ss
any_over_limit _ _ = false

abbrev pub code_of : Bool → Code
code_of true = over_limit
code_of false = ok

-- From a tally whose code is that of `b`, the loop over the statuses ends with OVER_LIMIT exactly
-- when `b` holds or some descriptor that is not unlimited is over its limit, and else with OK.
pub final_code-tally :
    (headers_enabled : Bool) (us : List Bool) (ss : List DescriptorStatus) (t : Tally) (b : Bool)
    → t.final_code ≡ code_of b
    → (tally headers_enabled us ss t).final_code ≡ code_of (b || any_over_limit us ss)
unfolding tally
final_code-tally h (u ∷ us) (s ∷ ss) t b e = ground (
  arith,
  final_code-tally h us ss (track_code u s (track_minimum h s t))
      (b || (not u && is_over_limit_code s.code)),
)
final_code-tally h (u ∷ us) [] t b e = ground arith
final_code-tally h [] ss t b e = ground arith

-- What the loop knows of the descriptor closest to its limit.
abbrev Describes : ℕ → Option DescriptorStatus → Type 0
Describes least none = least ≡ max_uint32
Describes least (some d) = (d.limit_remaining ≡ least) × (has_limit d.current_limit ≡ true)

abbrev pub IsLowerBound : ℕ → List DescriptorStatus → Type 0
IsLowerBound least = All (λ s. has_limit s.current_limit ≡ true → least ≤ s.limit_remaining)

minimum-tally :
    (us : List Bool) (ss : List DescriptorStatus) (t : Tally)
    → length us ≡ length ss
    → any_over_limit us ss ≡ false
    → Describes t.min_limit_remaining t.minimum_descriptor
    → ((tally true us ss t).min_limit_remaining ≤ t.min_limit_remaining)
      × IsLowerBound (tally true us ss t).min_limit_remaining ss
      × Describes (tally true us ss t).min_limit_remaining (tally true us ss t).minimum_descriptor
unfolding tally
minimum-tally [] [] t n h d = (omega arith, tt, d)
minimum-tally [] (s ∷ ss) t n h d = absurd (omega arith)
minimum-tally (u ∷ us) [] t n h d = absurd (omega arith)
minimum-tally (u ∷ us) (s ∷ ss) t n h d =
    let t' : Tally = track_code u s (track_minimum true s t) in
    let ih = minimum-tally us ss t' (omega arith) (ground arith) (ground arith) in
    (ground (arith, ih), (λ l. ground (arith, ih), ih.1), ih.2)

-- The status is one of the list.
abbrev pub Among : DescriptorStatus → List DescriptorStatus → Type 0
Among d [] = ⊥
Among d (s ∷ ss) = (d ≡ s) ⊎ Among d ss

minimum-Among :
    (h : Bool) (us : List Bool) (ss : List DescriptorStatus) (t : Tally) (d : DescriptorStatus)
    → (tally h us ss t).minimum_descriptor ≡ some d
    → (t.minimum_descriptor ≡ some d) ⊎ Among d ss
unfolding tally
minimum-Among h [] [] t d e = inl e
minimum-Among h [] (s ∷ ss) t d e = inl e
minimum-Among h (u ∷ us) [] t d e = inl e
minimum-Among h (u ∷ us) (s ∷ ss) t d e =
    ground (arith, minimum-Among h us ss (track_code u s (track_minimum h s t)) d e)

least_of :
    (least : ℕ) (o : Option DescriptorStatus) (d : DescriptorStatus)
    → Describes least o
    → o ≡ some d
    → (d.limit_remaining ≡ least) × (has_limit d.current_limit ≡ true)
least_of least o d h e = ground arith

-- With custom headers, as many statuses as descriptors, and no descriptor that counts over its
-- limit, the descriptor that the headers are made from, if there is one, is one of the backend's,
-- has a limit, and has the least remaining of all that have a limit.
pub minimum-tally_least :
    (us : List Bool) (ss : List DescriptorStatus) (d : DescriptorStatus)
    → length us ≡ length ss
    → any_over_limit us ss ≡ false
    → (tally true us ss initial_tally).minimum_descriptor ≡ some d
    → Among d ss × (has_limit d.current_limit ≡ true) × IsLowerBound d.limit_remaining ss
minimum-tally_least us ss d n h e =
    let m = minimum-tally us ss initial_tally n h refl in
    let l = least_of _ _ d m.2 e in
    (elim (minimum-Among true us ss initial_tally d e) [ inl g ↦ cc | inr a ↦ a ], l.1, rw l.0 m.1)
