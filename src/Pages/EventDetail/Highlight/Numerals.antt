-- ===== src/Pages/EventDetail/Highlight/Numerals.antt =====
-- The numerals that `highlightJava` matches: they split the text, and not inside a word.
use jvm_scout.Base.{
  ℕ, [], ◌∷◌, ◌++◌, ◌≡◌, refl, ap, arith, none, some, Bool, Bool-cases, true, false, not, inl, inr,
  ◌&&◌, Text, nat_dec, ℕ_discrete, if◌then◌else◌, ◌==◌, sym, subst,
}
use jvm_scout.Pages.Versions.{is_digit}
use jvm_scout.Pages.EventDetail.Highlight.{
  Match, is_word, at_word, span, prefixed, numeral_end, dot_or, dot_alone, fraction_of, fraction,
  plus, after_digits, numeral_of, numeral_at, ends_word, is_suffix,
}
use jvm_scout.Pages.EventDetail.Highlight.Splits.{
  Splits, Splits-if, Splits-prefixed, span-joined, span-ends,
}

Splits-numeral_end : (s : Text) → Splits true s (numeral_end s)
unfolding numeral_end
Splits-numeral_end [] = (refl, inr refl)
Splits-numeral_end (c ∷ t) =
    Splits-if true (c ∷ t) _ (some (c ∷ [], t)) (if is_word c then none else some ([], c ∷ t))
      (λ e. (refl, inr (ground arith)))
      (λ e.
        Splits-if true (c ∷ t) (is_word c) none (some ([], c ∷ t)) (λ f. tt) (λ f. (refl, inr f)))

dot_Splits : (t : Text) → Splits true (46 ∷ t) (some (46 ∷ [], t))
unfolding is_word ℕ_discrete
dot_Splits t = (refl, inl refl)

Splits-dot_alone : (t : Text) → Splits true (46 ∷ t) (some (dot_alone t))
unfolding is_word ℕ_discrete
Splits-dot_alone [] = (refl, inr refl)
Splits-dot_alone (c ∷ t) = elim (Bool-cases (is_suffix c && not (at_word t))) [
  | inl e ↦ rw (e) (refl, inr (ground arith))
  | inr e ↦ elim (Bool-cases (is_word c)) [
    | inl f ↦ rw (e, f) (dot_Splits (c ∷ t))
    | inr f ↦ rw (e, f) (refl, inr refl)
  ]
]

is_digit-is_word : (c : ℕ) → is_digit c ≡ true → is_word c ≡ true
unfolding is_word
is_digit-is_word c h = ground arith

-- After digits the scan stands inside a word.
digits_end_word : (s : Text) → ends_word true (span is_digit s).0 ≡ true
digits_end_word s = span-ends is_digit (λ b. b) true s is_digit-is_word refl

Splits-dot_or :
    (t : Text) (o : Match) → Splits (is_word 46) t o → Splits true (46 ∷ t) (some (dot_or t o))
Splits-dot_or t none h = dot_Splits t
Splits-dot_or t (some (m, r)) (e, b) = (ap (46 ∷◌) e, b)

-- A numeral's digits before what ends it.
Splits-with_digits :
    (prev : Bool) (ds r : Text) (o : Match)
    → ends_word prev ds ≡ true
    → Splits true r o
    → Splits prev (ds ++ r) (prefixed ds o)
Splits-with_digits prev ds r o w h =
    Splits-prefixed prev ds r o (subst (λ b. Splits b r o) (sym w) h)

Splits-fraction_of :
    (t : Text) (x : Text × Text)
    → x.0 ++ x.1 ≡ t
    → ends_word true x.0 ≡ true
    → Splits true (46 ∷ t) (some (fraction_of t x))
Splits-fraction_of t ([], r) e w = Splits-dot_alone t
Splits-fraction_of t (d ∷ ds, r) e w = Splits-dot_or t (prefixed (d ∷ ds) (numeral_end r)) (
    subst (λ u. Splits (is_word 46) u (prefixed (d ∷ ds) (numeral_end r))) e
      (Splits-with_digits (is_word 46) (d ∷ ds) r (numeral_end r) w (Splits-numeral_end r)))

Splits-fraction : (t : Text) → Splits true (46 ∷ t) (some (fraction t))
unfolding fraction
Splits-fraction t =
    Splits-fraction_of t (span is_digit t) (span-joined is_digit t) (digits_end_word t)

Splits-after_digits :
    (prev : Bool) (ds r : Text)
    → ends_word prev ds ≡ true
    → Splits prev (ds ++ r) (after_digits ds r)
Splits-after_digits prev ds [] w =
    Splits-with_digits prev ds [] (numeral_end []) w (Splits-numeral_end [])
Splits-after_digits prev ds (c ∷ t) w =
    Splits-if prev (ds ++ c ∷ t) (c == 46) (plus ds (fraction t))
      (prefixed ds (numeral_end (c ∷ t)))
      (λ e.
        let dot : 46 ≡ c = ground arith in
        subst (λ u. Splits prev (ds ++ u ∷ t) (plus ds (fraction t))) dot
          (Splits-with_digits prev ds (46 ∷ t) (some (fraction t)) w (Splits-fraction t)))
      (λ e. Splits-with_digits prev ds (c ∷ t) (numeral_end (c ∷ t)) w (Splits-numeral_end (c ∷ t)))

Splits-numeral_of :
    (s : Text) (x : Text × Text)
    → x.0 ++ x.1 ≡ s
    → ends_word true x.0 ≡ true
    → Splits false s (numeral_of x)
Splits-numeral_of s ([], r) e w = tt
Splits-numeral_of s (d ∷ ds, r) e w =
    subst (λ u. Splits false u (after_digits (d ∷ ds) r)) e (Splits-after_digits false (d ∷ ds) r w)

pub Splits-numeral_at : (prev : Bool) (s : Text) → Splits prev s (numeral_at prev s)
unfolding numeral_at
Splits-numeral_at true s = tt
Splits-numeral_at false s =
    Splits-numeral_of s (span is_digit s) (span-joined is_digit s) (digits_end_word s)
