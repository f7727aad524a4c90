-- ===== src/Common/Maps.antt =====
-- Go's maps with string keys as association lists with one entry for a key. The code ranges over a
-- map only where the order does not matter, or where a parameter of the model gives the order.
use api_ratelimit.Common.Text.{GoString, ◌==◌, eq_iff}
use api_ratelimit.Common.Tests.{if◌then◌else◌}
use mathlib.Core.Path.{◌≡◌, refl}
use mathlib.Core.Option.{Option, none, some}
use mathlib.Core.List.{List, [], ◌∷◌}
use native.Mathlib.Omega.{arith}

abbrev pub Dict {ℓ} : Type ℓ → Type ℓ
Dict V = List (GoString × V)

module _ {ℓ} {V : Type ℓ} where
  -- m[key] = value: the entry of the key is replaced, or put at the end.
  unfoldable pub insert : GoString → V → Dict V → Dict V
  insert key value [] = (key, value) ∷ []
  insert key value (entry ∷ rest) =
      if entry.0 == key then (key, value) ∷ rest else entry ∷ insert key value rest

  -- value, ok := m[key]
  unfoldable pub lookup : GoString → Dict V → Option V
  lookup key [] = none
  lookup key (entry ∷ rest) = if entry.0 == key then some entry.1 else lookup key rest

  -- Reading after a write: the written key has the new value, and the others keep theirs.
  pub lookup-insert :
      (written read : GoString) (value : V) (m : Dict V)
      → lookup read (insert written value m)
        ≡ (if written == read then some value else lookup read m)
  unfolding insert lookup
  lookup-insert written read value [] = refl
  lookup-insert written read value (entry ∷ rest) =
      let there = eq_iff entry.0 written in
      let asked = eq_iff entry.0 read in
      let same = eq_iff written read in
      let others = lookup-insert written read value rest in
      ground (same, there, asked, others, arith)
