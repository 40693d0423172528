-- ===== src/Adapter/Meets.antt =====
-- frontend/src/integrations/collector/adapter.ts: which rows meet the filters of a select.
use jvm_scout.Base.{
  ◌≡◌, refl, subst, sym, arith, List, true, false, ◌↔◌, text_dec, nat_dec, all, All, Mem, ◌≢◌, any,
  Bool-cases, inl, inr, [], ◌∷◌,
}
use jvm_scout.Client.Values.{Value, undefined, null, object, bool, num, str, Row, column, strict_eq}
use jvm_scout.Adapter.Query.{Filter, passes}

-- The row meets the filter: the column holds the value, or one of the values, and no object, which is
-- equal to none.
abbrev pub Meets : Row → Filter → Type 0
Meets r (Filter.eq col val) = (column col r ≡ val) × (val ≢ object)
Meets r (Filter.one_of col vals) = Mem (column col r) vals × (column col r ≢ object)

strict_eq_refl : (a : Value) → a ≢ object → strict_eq a a ≡ true
strict_eq_refl undefined h = refl
strict_eq_refl null h = refl
strict_eq_refl object h = absurd (h refl)
strict_eq_refl (bool true) h = refl
strict_eq_refl (bool false) h = refl
strict_eq_refl (num n) h = ground arith
strict_eq_refl (str s) h = ground arith

strict_eq_sound : (a b : Value) → strict_eq a b ≡ true → (a ≡ b) × (b ≢ object)
strict_eq_sound a b h = ground arith

any-strict_eq :
    (a : Value) (vals : List Value)
    → (any (λ v. strict_eq v a) vals ≡ true) ↔ (Mem a vals × (a ≢ object))
any-strict_eq a [] = (λ h. absurd (ground arith), λ (m, n). absurd m)
any-strict_eq a (v ∷ vs) = (
  λ h. elim (Bool-cases (strict_eq v a)) [
    | inl e ↦ let (same, plain) = strict_eq_sound v a e in (inl (sym same), plain)
    | inr e ↦ let (m, plain) = (any-strict_eq a vs).0 (ground arith) in (inr m, plain)
  ],
  λ (m, plain). elim m [
    | inl e ↦
        let here = subst (λ w. strict_eq w a ≡ true) e (strict_eq_refl a plain) in ground arith
    | inr there ↦ let rest = (any-strict_eq a vs).1 (there, plain) in ground arith
  ],
)

passes-Meets : (r : Row) (f : Filter) → (passes r f ≡ true) ↔ Meets r f
unfolding passes
passes-Meets r (Filter.eq col val) = (
  λ h. strict_eq_sound (column col r) val h,
  λ (e, plain). subst (λ v. strict_eq v val ≡ true) (sym e) (strict_eq_refl val plain),
)
passes-Meets r (Filter.one_of col vals) = any-strict_eq (column col r) vals

pub all-passes-Meets : (r : Row) (fs : List Filter) → (all (passes r) fs ≡ true) ↔ All (Meets r) fs
all-passes-Meets r [] = (λ h. tt, λ h. refl)
all-passes-Meets r (f ∷ fs) = (
  λ h. ((passes-Meets r f).0 (ground arith), (all-passes-Meets r fs).0 (ground arith)),
  λ (p, h).
      let first = (passes-Meets r f).1 p in let rest = (all-passes-Meets r fs).1 h in ground arith,
)
