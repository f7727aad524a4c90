-- ===== src/Common/Text.antt =====
-- Go's strings as lists of bytes, and the functions of the package `strings` that the code calls.
use Prim.Native.Nat.{ℕ}
use Prim.Native.Char.{code}
use Prim.Native.String.{String}
use mathlib.Core.Path.{◌≡◌, refl}
use mathlib.Core.Logic.{◌↔◌, ◌≢◌}
use mathlib.Core.Bool.{Bool, true, false, ◌&&◌}
use mathlib.Core.List.{List, [], ◌∷◌}
use native.Mathlib.Omega.{arith}
use api_ratelimit.Common.Tests

abbrev pub GoString : Type 0
GoString = List ℕ

-- A literal; its characters are ASCII.
abbrev pub text : String → GoString
text String.[] = []
text (String.◌∷◌ c s) = code c ∷ text s

infix 50 ◌==◌
unfoldable pub ◌==◌ : GoString → GoString → Bool
[] == [] = true
[] == (d ∷ t) = false
(c ∷ s) == [] = false
(c ∷ s) == (d ∷ t) = Tests.◌==◌ c d && (s == t)

pub eq_refl : (s : GoString) → (s == s) ≡ true
unfolding ◌==◌
eq_refl [] = refl
eq_refl (c ∷ s) = ground (arith, eq_refl s)

pub eq_sound : (s t : GoString) → (s == t) ≡ true → s ≡ t
unfolding ◌==◌
eq_sound [] [] h = refl
eq_sound [] (d ∷ t) h = cc
eq_sound (c ∷ s) [] h = cc
eq_sound (c ∷ s) (d ∷ t) h = ground (arith, eq_sound s t)

pub eq_iff : (s t : GoString) → ((s == t) ≡ true) ↔ (s ≡ t)
eq_iff s t = (eq_sound s t, λ e. rw e (eq_refl t))

pub eq_false : (s t : GoString) → s ≢ t → (s == t) ≡ false
eq_false s t h = ground (arith, eq_sound s t)
