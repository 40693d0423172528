-- ===== src/Pages/EventDetail/Highlight/Lost.antt =====
-- The digits that `highlightJava` loses.
use jvm_scout.Base.{
  ℕ, zero, suc, ◌≤◌, ◌<◌, [], ◌∷◌, ◌≡◌, refl, ap, arith, Option, Option-cases, none, Bool, true,
  false, inl, inr, Text, nat_dec, if◌then◌else◌, ◌==◌, ◌∙◌, length, length-append, is_space,
}
use jvm_scout.Pages.Versions.{is_digit}
use jvm_scout.Pages.EventDetail.Highlight.{
  Kind, Token, Match, is_word, span, cons, prefixed, many, comment_at, quoted_at, numeral_end,
  is_symbol, after_digits, numeral_of, numeral_at, identifier_at, labelled, ◌or_try◌, match_at,
  ends_word, tokens, highlight_java, shown_text,
}
use jvm_scout.Pages.EventDetail.Highlight.Lossless.{tokens-none, tokens-some, taken}
use jvm_scout.Pages.EventDetail.Highlight.Plain.{ends_numeral}

-- No text is added.
length-shown_text-le :
    (fuel : ℕ) (prev : Bool) (s : Text) → length (shown_text (tokens fuel prev s)) ≤ length s
unfolding shown_text
length-shown_text-le zero prev s = unfold tokens in omega arith
length-shown_text-le (suc fuel) prev [] = unfold tokens in omega arith
length-shown_text-le (suc fuel) prev (c ∷ t) = elim (Option-cases (match_at prev (c ∷ t))) [
  | inl e ↦
      let rest = length-shown_text-le fuel (is_word c) t in
      let step = ap (λ ts. length (shown_text ts)) (tokens-none fuel prev c t e) in omega arith
  | inr ((token, r), e) ↦
      let (joined, (edge, some_text)) = taken prev (c ∷ t) token r e in
      let rest = length-shown_text-le fuel (ends_word prev token.text) r in
      let step = ap (λ ts. length (shown_text ts)) (tokens-some fuel prev c t token r e) in
      let parts =
        length-append token.text (shown_text (tokens fuel (ends_word prev token.text) r)) in
      let whole = length-append token.text r in let same = ap length joined in omega arith
]

no_end : (c : ℕ) (t : Text) → ends_numeral (c ∷ t) ≡ false → numeral_end (c ∷ t) ≡ none
unfolding numeral_end
no_end c t h = ground arith

no_dot : (c : ℕ) (t : Text) → ends_numeral (c ∷ t) ≡ false → (c == 46) ≡ false
no_dot c t h = ground arith

no_numeral_after : (ds r : Text) → ends_numeral r ≡ false → after_digits ds r ≡ none
no_numeral_after ds [] h = absurd (cc)
no_numeral_after ds (c ∷ t) h = rw (no_dot c t h) (ap (prefixed ds) (no_end c t h))

no_numeral :
    (d : ℕ) (s : Text)
    → is_digit d ≡ true
    → ends_numeral (span is_digit s).1 ≡ false
    → numeral_at false (d ∷ s) ≡ none
unfolding numeral_at span
no_numeral d s h k =
    ap (λ b. numeral_of (if b then cons d (span is_digit s) else ([], d ∷ s))) h
    ∙ no_numeral_after (d ∷ (span is_digit s).0) (span is_digit s).1 k

no_comment : (d : ℕ) (s : Text) → is_digit d ≡ true → comment_at (d ∷ s) ≡ none
unfolding comment_at
no_comment d [] h = refl
no_comment d (e ∷ t) h = ground arith

no_text : (d : ℕ) (s : Text) → is_digit d ≡ true → quoted_at (d ∷ s) ≡ none
unfolding quoted_at
no_text d s h = ground arith

no_identifier : (d : ℕ) (s : Text) → is_digit d ≡ true → identifier_at (d ∷ s) ≡ none
unfolding identifier_at
no_identifier d s h = ground arith

none_of : (p : ℕ → Bool) (d : ℕ) (s : Text) → p d ≡ false → many p (d ∷ s) ≡ none
unfolding many
none_of p d s h = rw (h) refl

no_symbol : (d : ℕ) → is_digit d ≡ true → is_symbol d ≡ false
unfolding is_word
no_symbol d h = ground arith

no_space : (d : ℕ) → is_digit d ≡ true → is_space d ≡ false
unfolding is_space
no_space d h = ground arith

skip :
    (kind_of : Text → Kind) (o : Match) (rest : Option (Token × Text))
    → o ≡ none
    → (labelled kind_of o or_try rest) ≡ rest
skip kind_of o rest h = ap (λ x. labelled kind_of x or_try rest) h

no_match :
    (d : ℕ) (s : Text)
    → is_digit d ≡ true
    → ends_numeral (span is_digit s).1 ≡ false
    → match_at false (d ∷ s) ≡ none
unfolding match_at
no_match d s h k =
    skip _ (comment_at (d ∷ s)) _ (no_comment d s h)
    ∙ skip _ (quoted_at (d ∷ s)) _ (no_text d s h)
    ∙ skip _ (numeral_at false (d ∷ s)) _ (no_numeral d s h k)
    ∙ skip _ (identifier_at (d ∷ s)) _ (no_identifier d s h)
    ∙ skip _ (many is_symbol (d ∷ s)) _ (none_of is_symbol d s (no_symbol d h))
    ∙ ap (labelled (λ _. Kind.space)) (none_of is_space d s (no_space d h))

-- A source text that begins with digits which another character of a word follows, that is no suffix of
-- a type alone, is shown shorter than it is: hexadecimal numerals and those with an underscore lose
-- digits.
pub highlight_java-loses :
    (d : ℕ) (s : Text)
    → is_digit d ≡ true
    → ends_numeral (span is_digit s).1 ≡ false
    → length (shown_text (highlight_java (d ∷ s))) < length (d ∷ s)
unfolding highlight_java
highlight_java-loses d s h k =
    let step =
      ap (λ ts. length (shown_text ts)) (tokens-none (length s) false d s (no_match d s h k)) in
    let rest = length-shown_text-le (length s) (is_word d) s in omega arith
