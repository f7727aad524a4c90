-- ===== src/Common/Decimal.antt =====
-- Decimal numbers read back: `strconv.FormatUint` is injective.
use api_ratelimit.Common.Tests.{ltb, Bool-cases}
use api_ratelimit.Common.Text.{GoString}
use api_ratelimit.Common.Strings.{format_fuel, format_uint}
use Prim.Native.Nat.{ℕ, zero, suc, ◌+◌, ◌-◌, ◌*◌, ◌/◌, ◌%◌, ◌<◌}
use mathlib.Core.Path.{◌≡◌, ap, sym, ◌∙◌}
use mathlib.Core.Logic.{inl, inr}
use mathlib.Core.Bool.{false}
use mathlib.Core.List.{[], ◌∷◌, ◌++◌}
use native.Mathlib.Omega.{arith}

unfoldable pub value_from : ℕ → GoString → ℕ
value_from v [] = v
value_from v (c ∷ s) = value_from (v * 10 + (c - b'0')) s

div_small : (f n : ℕ) → n < suc f → ltb n 10 ≡ false → n / 10 < f
div_small f n h big = ground arith

value-format_fuel :
    (f n : ℕ) (acc : GoString) → n < f → value_from 0 (format_fuel f n acc) ≡ value_from n acc
unfolding value_from format_fuel
value-format_fuel zero n acc h = absurd (omega arith)
value-format_fuel (suc f) n acc h = elim (Bool-cases (ltb n 10)) [
  | inl one ↦ rw one (ap (λ v. value_from v acc) (omega arith))
  | inr more ↦ rw more (
      value-format_fuel f (n / 10) ((b'0' + n % 10) ∷ acc) (div_small f n h more)
      ∙ ap (λ v. value_from v acc) (omega arith))
]

-- The digits that are written stand for the number.
pub value-format_uint : (n : ℕ) → value_from 0 (format_uint n) ≡ n
unfolding format_uint value_from
value-format_uint n = value-format_fuel (suc n) n [] (omega arith)

pub format_uint-injective : (m n : ℕ) → format_uint m ≡ format_uint n → m ≡ n
format_uint-injective m n h =
    sym (value-format_uint m) ∙ (ap (value_from 0) h ∙ value-format_uint n)

pub append_cancel_left : (k s t : GoString) → k ++ s ≡ k ++ t → s ≡ t
append_cancel_left [] s t h = h
append_cancel_left (c ∷ k) s t h = append_cancel_left k s t (ground arith)
