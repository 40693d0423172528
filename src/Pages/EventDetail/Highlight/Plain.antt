-- ===== src/Pages/EventDetail/Highlight/Plain.antt =====
-- `highlightJava` on a source line whose numerals are plain decimal ones.
use jvm_scout.Base.{
  ℕ, zero, suc, ◌≤◌, [], ◌∷◌, ◌++◌, ◌≡◌, ◌≢◌, refl, ap, arith, none, some, Bool, Bool-cases,
  Option-cases, true, false, not, inl, inr, ◌⊎◌, ◌&&◌, ◌||◌, Text, nat_dec, if◌then◌else◌, ◌==◌,
  ◌∙◌, sym, subst, length,
}
use jvm_scout.Pages.Versions.{is_digit}
use jvm_scout.Pages.EventDetail.Highlight.{
  Match, is_word, at_word, span, cons, prefixed, numeral_end, is_suffix, after_digits, numeral_of,
  numeral_at, fraction, plus, match_at, ends_word, tokens, highlight_java, shown_text,
}
use jvm_scout.Pages.EventDetail.Highlight.Lossless.{
  tokens-some, taken, shorter, match_at-none, is_digit_of_none,
}

-- After the digits of a numeral stands a dot, nothing of a word, or the suffix of its type alone.
abbrev pub ends_numeral : Text → Bool
ends_numeral [] = true
ends_numeral (c ∷ t) = c == 46 || (not (is_word c) || (is_suffix c && not (at_word t)))

-- Each numeral of the text is a plain decimal one.
unfoldable pub is_plain : Bool → Text → Bool
is_plain prev [] = true
is_plain prev (c ∷ t) =
    let rest = is_plain (is_word c) t in
    (prev || (not (is_digit c) || ends_numeral (span is_digit t).1)) && rest

numeral_end-some :
    (c : ℕ) (t : Text)
    → ends_numeral (c ∷ t) ≡ true
    → (c == 46) ≡ false
    → numeral_end (c ∷ t) ≢ none
unfolding numeral_end
numeral_end-some c t h k e = ground arith

prefixed-none : (p : Text) (o : Match) → prefixed p o ≡ none → o ≡ none
prefixed-none p none h = refl
prefixed-none p (some (m, r)) h = absurd (cc)

plus-some : (p : Text) (x : Text × Text) → plus p x ≢ none
plus-some p x e = cc

some_after_digits : (ds r : Text) → ends_numeral r ≡ true → after_digits ds r ≢ none
unfolding numeral_end
some_after_digits ds [] h = λ e. absurd (cc)
some_after_digits ds (c ∷ t) h = elim (Bool-cases (c == 46)) [
  | inl k ↦ rw (k) (plus-some ds (fraction t))
  | inr k ↦ rw (k) (λ e. numeral_end-some c t h k (prefixed-none ds (numeral_end (c ∷ t)) e))
]

some_numeral :
    (c : ℕ) (t : Text)
    → is_digit c ≡ true
    → ends_numeral (span is_digit t).1 ≡ true
    → numeral_at false (c ∷ t) ≢ none
unfolding numeral_at span
some_numeral c t h k =
    subst (λ x. numeral_of x ≢ none)
      (sym (ap (λ b. if b then cons c (span is_digit t) else ([], c ∷ t)) h))
      (some_after_digits (c ∷ (span is_digit t).0) (span is_digit t).1 k)

is_plain-drop :
    (m r : Text) (prev : Bool)
    → is_plain prev (m ++ r) ≡ true
    → is_plain (ends_word prev m) r ≡ true
unfolding is_plain
is_plain-drop [] r prev h = h
is_plain-drop (c ∷ m) r prev h = is_plain-drop m r (is_word c) (ground arith)

plain_numeral :
    (prev : Bool) (c : ℕ) (t : Text)
    → is_plain prev (c ∷ t) ≡ true
    → prev ≡ false
    → is_digit c ≡ true
    → ends_numeral (span is_digit t).1 ≡ true
unfolding is_plain
plain_numeral prev c t h k l = ground arith

is_digit-at_word : (c : ℕ) (t : Text) → is_digit c ≡ true → at_word (c ∷ t) ≡ true
unfolding is_word
is_digit-at_word c t h = ground arith

shown_text-tokens :
    (fuel : ℕ) (prev : Bool) (s : Text)
    → length s ≤ fuel
    → (prev ≡ false) ⊎ (at_word s ≡ false)
    → is_plain prev s ≡ true
    → shown_text (tokens fuel prev s) ≡ s
unfolding shown_text
shown_text-tokens zero prev [] h b k = unfold tokens in refl
shown_text-tokens (suc fuel) prev [] h b k = unfold tokens in refl
shown_text-tokens zero prev (c ∷ t) h b k = absurd (omega arith)
shown_text-tokens (suc fuel) prev (c ∷ t) h b k = elim (Option-cases (match_at prev (c ∷ t))) [
  | inl e ↦
      let digit = is_digit_of_none prev c t e in
      let outside : prev ≡ false = elim b [
        | inl o ↦ o
        | inr o ↦ absurd (ground (arith, is_digit-at_word c t digit))
      ] in
      absurd (
        some_numeral c t digit (plain_numeral prev c t k outside digit)
          (subst (λ p. numeral_at p (c ∷ t) ≡ none) outside (match_at-none prev (c ∷ t) e).0))
  | inr ((token, r), e) ↦
      let (joined, (edge, some_text)) = taken prev (c ∷ t) token r e in
      let size = shorter token.text r (c ∷ t) joined some_text in
      let plain =
        is_plain-drop token.text r prev (subst (λ u. is_plain prev u ≡ true) (sym joined) k) in
      ap shown_text (tokens-some fuel prev c t token r e)
      ∙ ap (token.text ++◌)
          (shown_text-tokens fuel (ends_word prev token.text) r (omega arith) edge plain)
      ∙ joined
]

-- `highlightJava` shows a source text exactly as it is, if each numeral in it is a plain decimal one:
-- the digits that begin a word are followed by a dot, by no word character, or by the suffix of a
-- type alone.
pub shown_text-highlight_java :
    (src : Text) → is_plain false src ≡ true → shown_text (highlight_java src) ≡ src
unfolding highlight_java
shown_text-highlight_java src h =
    shown_text-tokens (length src) false src (omega arith) (inl refl) h
