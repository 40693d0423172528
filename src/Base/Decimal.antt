-- ===== src/Base/Decimal.antt =====
-- Decimal numerals: `String(n)` and template literals, at natural numbers.
use Prim.Native.Nat.{ℕ, zero, suc, ◌+◌, ◌-◌, ◌*◌, ◌/◌, ◌%◌, ◌≤◌, ◌<◌}
use mathlib.Core.Path.{◌≡◌, refl, sym, ap, ◌∙◌}
use mathlib.Core.Logic.{◌≢◌, inl, inr}
use mathlib.Core.List.{[], ◌∷◌}
use native.Mathlib.Omega.{arith}
use jvm_scout.Base.Tests.{if◌then◌else◌, ltb, Bool-cases}
use jvm_scout.Base.Lists.{All}
use jvm_scout.Base.Strings.{Text, Lacks}

-- The digits of `n` before `acc`; the fuel exceeds `n`.
unfoldable pub digits_from : ℕ → ℕ → Text → Text
digits_from zero n acc = acc
digits_from (suc f) n acc =
    let more = digits_from f (n / 10) ((48 + n % 10) ∷ acc) in
    if ltb n 10 then (48 + n) ∷ acc else more

unfoldable pub show : ℕ → Text
unfolding digits_from
show n = digits_from (suc n) n []

-- The number that a run of digits denotes, after the value of those before it.
unfoldable pub value_from : ℕ → Text → ℕ
value_from a [] = a
value_from a (c ∷ s) = value_from (a * 10 + (c - 48)) s

value_from-digits_from :
    (f n : ℕ) (acc : Text) → n < f → value_from 0 (digits_from f n acc) ≡ value_from n acc
unfolding digits_from value_from
value_from-digits_from zero n acc h = elim h [ ]
value_from-digits_from (suc f) n acc h = elim (Bool-cases (ltb n 10)) [
  | inl small ↦ rw small (ap (λ v. value_from v acc) (omega arith))
  | inr large ↦ rw large (
      value_from-digits_from f (n / 10) _ (ground arith)
      ∙ ap (λ v. value_from v acc) (ground arith))
]

-- Reading back a numeral gives the number.
pub value_from-show : (n : ℕ) → value_from 0 (show n) ≡ n
unfolding show value_from
value_from-show n = value_from-digits_from (suc n) n [] (omega arith)

pub show_injective : (m n : ℕ) → show m ≡ show n → m ≡ n
show_injective m n h = sym (value_from-show m) ∙ ap (value_from 0) h ∙ value_from-show n

unfoldable pub IsDigit : ℕ → Type 0
IsDigit c = (48 ≤ c) × (c ≤ 57)

digits_from-IsDigit : (f n : ℕ) (acc : Text) → All IsDigit acc → All IsDigit (digits_from f n acc)
unfolding digits_from IsDigit
digits_from-IsDigit zero n acc h = h
digits_from-IsDigit (suc f) n acc h = elim (Bool-cases (ltb n 10)) [
  | inl small ↦ rw small ((omega arith, ground arith), h)
  | inr large ↦ rw large (digits_from-IsDigit f (n / 10) _ ((omega arith, omega arith), h))
]

Lacks-of_IsDigit : (sep : ℕ) (s : Text) → 57 < sep → All IsDigit s → Lacks sep s
unfolding IsDigit
Lacks-of_IsDigit sep [] k h = tt
Lacks-of_IsDigit sep (c ∷ s) k (p, h) = (omega arith, Lacks-of_IsDigit sep s k h)

-- A numeral has no `:`, and no other character above the digits.
pub show-Lacks : (sep n : ℕ) → 57 < sep → Lacks sep (show n)
unfolding show
show-Lacks sep n h = Lacks-of_IsDigit sep _ h (digits_from-IsDigit (suc n) n [] tt)

pub show-IsDigit : (n : ℕ) → All IsDigit (show n)
unfolding show
show-IsDigit n = digits_from-IsDigit (suc n) n [] tt

shown_zero : show 0 ≢ []
unfolding show digits_from
shown_zero e = cc

value_from-nil : 0 ≡ value_from 0 []
unfolding value_from
value_from-nil = refl

-- A numeral has a digit.
pub show-some : (n : ℕ) → show n ≢ []
show-some n e =
    let nothing : value_from 0 [] ≡ n = ap (value_from 0) (sym e) ∙ value_from-show n in
    shown_zero (ap show (value_from-nil ∙ nothing) ∙ e)
