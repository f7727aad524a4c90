-- ===== src/Common/Panics.antt =====
-- Panics, and code that changes a state and may panic. What was written before a panic stays written.
use mathlib.Core.Path.{◌≡◌, refl, ap}
use mathlib.Core.Logic.{◌⊎◌, inl, inr}
use mathlib.Core.Bool.{Bool, true, false}
use api_ratelimit.Common.Text.{GoString}

-- The values that the code panics with: the typed errors, and any other value.
pub data Panic : Type 0 where
  redis_error : GoString → Panic
  service_error : GoString → Panic
  config_error : GoString → Panic
  memcache_error : GoString → Panic
  other_error : GoString → Panic

pub data Outcome {ℓ} (A : Type ℓ) : Type ℓ where
  returns : A → Outcome A
  panics : Panic → Outcome A

abbrev pub Go {ℓ} : Type ℓ → Type ℓ → Type ℓ
Go S A = S → Outcome A × S

module _ {ℓ} {S A : Type ℓ} where
  abbrev pub pure : A → Go S A
  pure a s = (returns a, s)

  abbrev pub panic : Panic → Go S A
  panic p s = (panics p, s)

  abbrev pub lift : Outcome A → Go S A
  lift r s = (r, s)

  abbrev pub gets : (S → A) → Go S A
  gets f s = (returns (f s), s)

module _ {ℓ} {S A B : Type ℓ} where
  abbrev pub continue : Outcome A → (A → Go S B) → Go S B
  continue (returns a) f s = f a s
  continue (panics p) f s = (panics p, s)

  infixl 10 ◌>>=◌ ◌>>◌
  abbrev pub ◌>>=◌ : Go S A → (A → Go S B) → Go S B
  ◌>>=◌ m f s = let (r, s') = m s in continue r f s'

  abbrev pub ◌>>◌ : Go S A → Go S B → Go S B
  m >> n = m >>= λ _. n

-- A statement that only writes.
abbrev pub modify {ℓ} : {S : Type ℓ} → (S → S) → Go S (Unit {ℓ})
modify f s = (returns tt, f s)

-- Sequencing of outcomes with no state.
abbrev pub and_then {ℓ κ} : {A : Type ℓ} {B : Type κ} → Outcome A → (A → Outcome B) → Outcome B
and_then (returns a) f = f a
and_then (panics p) f = panics p

abbrev pub check : Panic → Bool → Outcome (Unit {0})
check p true = returns tt
check p false = panics p

pub Outcome-cases {ℓ} :
    {A : Type ℓ} (o : Outcome A) → ((a : A) × (o ≡ returns a)) ⊎ ((p : Panic) × (o ≡ panics p))
Outcome-cases (returns a) = inl (a, refl)
Outcome-cases (panics p) = inr (p, refl)

pub and_then-returns {ℓ κ} :
    {A : Type ℓ} {B : Type κ} (m : Outcome A) (f : A → Outcome B) {b : B}
    → and_then m f ≡ returns b
    → (a : A) × (m ≡ returns a) × (f a ≡ returns b)
and_then-returns (returns a) f h = (a, refl, h)
and_then-returns (panics p) f h = cc

pub check-returns : (p : Panic) (b : Bool) {u : Unit {0}} → check p b ≡ returns u → b ≡ true
check-returns p true h = refl
check-returns p false h = cc

-- Inversion of a sequence that returns.
pub bind-returns {ℓ} :
    {S A B : Type ℓ} (m : Go S A) (f : A → Go S B) (s : S) {b : B} {s' : S}
    → (m >>= f) s ≡ (returns b, s')
    → (a : A) × (t : S) × (m s ≡ (returns a, t)) × (f a t ≡ (returns b, s'))
bind-returns {S = S} {A = A} {B = B} m f s {b} {s'} h = go (m s) refl h
  where
    go :
        (r : Outcome A × S)
        → m s ≡ r
        → ◌≡◌ {A = Outcome B × S} (continue r.0 f r.1) (returns b, s')
        → (a : A) × (t : S) × (m s ≡ (returns a, t)) × (f a t ≡ (returns b, s'))
    go (returns a, t) e g = (a, t, e, g)
    go (panics p, t) e g = cc

-- The same for a sequence that begins with a computation without state.
pub bind_lift-returns {ℓ} :
    {S A B : Type ℓ} (o : Outcome A) (f : A → Go S B) (s : S) {b : B} {s' : S}
    → (lift o >>= f) s ≡ (returns b, s')
    → (a : A) × (o ≡ returns a) × (f a s ≡ (returns b, s'))
bind_lift-returns (returns a) f s h = (a, refl, h)
bind_lift-returns (panics p) f s h = cc

value_or {ℓ} : {A : Type ℓ} → A → Outcome A → A
value_or d (returns a) = a
value_or d (panics p) = d

pub returns-eq {ℓ} : {A : Type ℓ} {a b : A} → returns a ≡ returns b → a ≡ b
unfolding value_or
returns-eq {a = a} h = ap (value_or a) h
