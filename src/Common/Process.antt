-- ===== src/Common/Process.antt =====
-- The start of a process: a step goes on, ends the process by logger.Fatalf, or panics.
use mathlib.Core.Path.{◌≡◌, refl, ap}
use mathlib.Core.Bool.{Bool, true, false}
use mathlib.Core.Logic.{◌⊎◌, inl, inr}
use api_ratelimit.Common.Tests.{if◌then◌else◌}
use api_ratelimit.Common.Panics.{Panic, Outcome, returns, panics}

pub data Process (A : Type 0) : Type 0 where
  runs : A → Process A
  fatal : Process A
  crashes : Panic → Process A

abbrev pub and_run : {A B : Type 0} → Process A → (A → Process B) → Process B
and_run (runs a) f = f a
and_run fatal f = fatal
and_run (crashes p) f = crashes p

-- A call that may panic.
abbrev pub call_in_process : {A : Type 0} → Outcome A → Process A
call_in_process (returns a) = runs a
call_in_process (panics p) = crashes p

-- logger.Fatalf where the condition does not hold
abbrev pub or_fatal : Bool → Process (Unit {0})
or_fatal true = runs tt
or_fatal false = fatal

pub and_run-runs :
    {A B : Type 0} (m : Process A) (f : A → Process B) {b : B}
    → and_run m f ≡ runs b
    → (a : A) × (m ≡ runs a) × (f a ≡ runs b)
and_run-runs (runs a) f h = (a, refl, h)
and_run-runs fatal f h = cc
and_run-runs (crashes p) f h = cc

pub call-runs : {A : Type 0} (o : Outcome A) {a : A} → call_in_process o ≡ runs a → o ≡ returns a
call-runs (returns b) h = cc
call-runs (panics p) h = cc

pub or_fatal-runs : (b : Bool) {u : Unit {0}} → or_fatal b ≡ runs u → b ≡ true
or_fatal-runs true h = refl
or_fatal-runs false h = cc

value_or : {A : Type 0} → A → Process A → A
value_or d (runs a) = a
value_or d fatal = d
value_or d (crashes p) = d

pub runs-eq : {A : Type 0} {a b : A} → runs a ≡ runs b → a ≡ b
unfolding value_or
runs-eq {a = a} h = ap (value_or a) h

-- A branch that is taken, with its test.
pub if-runs :
    {A : Type 0} (b : Bool) (m n : Process A) {a : A}
    → (if b then m else n) ≡ runs a
    → ((b ≡ true) × (m ≡ runs a)) ⊎ ((b ≡ false) × (n ≡ runs a))
if-runs true m n h = inl (refl, h)
if-runs false m n h = inr (refl, h)
