-- ===== src/Pages/EventDetail/Highlight/Lossless.antt =====
-- What `highlightJava` keeps of the text of a source line.
use jvm_scout.Base.{
  ℕ, zero, suc, ◌≤◌, ◌<◌, [], ◌∷◌, ◌++◌, ◌≡◌, refl, ap, arith, Option, none, some, Bool, Bool-cases,
  Option-cases, true, false, not, inl, inr, ◌||◌, Text, nat_dec, is_empty, ◌==◌, ◌∙◌, sym, subst,
  is_space, filter, filter-append, length, length-append,
}
use jvm_scout.Pages.Versions.{is_digit}
use jvm_scout.Pages.EventDetail.Highlight.{
  Kind, Token, Match, is_word, is_letter, many, comment_at, quoted_at, numeral_at, identifier_at,
  is_symbol, labelled, ◌or_try◌, match_at, ends_word, tokens, after_match, highlight_java,
  shown_text,
}
use jvm_scout.Pages.EventDetail.Highlight.Matches.{Takes, Takes-match_at}

or_try-none : {A : Type 0} (o rest : Option A) → (o or_try rest) ≡ none → (o ≡ none) × (rest ≡ none)
or_try-none none rest h = (refl, h)
or_try-none (some a) rest h = absurd (cc)

labelled-none : (kind_of : Text → Kind) (o : Match) → labelled kind_of o ≡ none → o ≡ none
labelled-none kind_of none h = refl
labelled-none kind_of (some (m, r)) h = absurd (cc)

-- Where no alternative matches, neither a numeral, an identifier, symbols nor space do.
pub match_at-none :
    (prev : Bool) (s : Text)
    → match_at prev s ≡ none
    → (numeral_at prev s ≡ none)
      × ((identifier_at s ≡ none) × ((many is_symbol s ≡ none) × (many is_space s ≡ none)))
unfolding match_at
match_at-none prev s h =
    let after_comment = (or_try-none (labelled _ (comment_at s)) _ h).1 in
    let after_quoted = (or_try-none (labelled _ (quoted_at s)) _ after_comment).1 in
    let (number, after_numeral) = or_try-none (labelled _ (numeral_at prev s)) _ after_quoted in
    let (word, after_word) = or_try-none (labelled _ (identifier_at s)) _ after_numeral in
    let (mark, blank) = or_try-none (labelled _ (many is_symbol s)) _ after_word in
    (
      labelled-none _ (numeral_at prev s) number,
      (
        labelled-none _ (identifier_at s) word,
        (labelled-none _ (many is_symbol s) mark, labelled-none _ (many is_space s) blank),
      ),
    )

many-none : (p : ℕ → Bool) (c : ℕ) (t : Text) → many p (c ∷ t) ≡ none → p c ≡ false
unfolding many
many-none p c t h = elim (Bool-cases (p c)) [ inl e ↦ absurd (ground arith) | inr e ↦ e ]

identifier_at-none :
    (c : ℕ) (t : Text)
    → identifier_at (c ∷ t) ≡ none
    → (is_letter c || (c == 95 || c == 36)) ≡ false
unfolding identifier_at
identifier_at-none c t h = elim (Bool-cases (is_letter c || (c == 95 || c == 36))) [
  | inl e ↦ absurd (ground arith)
  | inr e ↦ e
]

-- Only a digit is passed over.
pub is_digit_of_none :
    (prev : Bool) (c : ℕ) (t : Text) → match_at prev (c ∷ t) ≡ none → is_digit c ≡ true
unfolding is_word
is_digit_of_none prev c t h =
    let (number, (word, (mark, blank))) = match_at-none prev (c ∷ t) h in
    let no_word = identifier_at-none c t word in
    let no_mark = many-none is_symbol c t mark in
    let no_blank = many-none is_space c t blank in ground arith

unfoldable pub is_kept : ℕ → Bool
is_kept c = not (is_digit c)

passed : (c : ℕ) (t : Text) → is_digit c ≡ true → filter is_kept (c ∷ t) ≡ filter is_kept t
unfolding is_kept
passed c t h = simp (h)

pub shorter : (m r s : Text) → m ++ r ≡ s → is_empty m ≡ false → length r < length s
shorter [] r s e h = absurd (cc)
shorter (c ∷ m) r s e h =
    let size = ap length (sym e) in let parts = length-append m r in omega arith

pub tokens-none :
    (fuel : ℕ) (prev : Bool) (c : ℕ) (t : Text)
    → match_at prev (c ∷ t) ≡ none
    → tokens (suc fuel) prev (c ∷ t) ≡ tokens fuel (is_word c) t
unfolding tokens
tokens-none fuel prev c t h = ap (after_match (tokens fuel) prev c t) h

pub tokens-some :
    (fuel : ℕ) (prev : Bool) (c : ℕ) (t : Text) (token : Token) (r : Text)
    → match_at prev (c ∷ t) ≡ some (token, r)
    → tokens (suc fuel) prev (c ∷ t) ≡ token ∷ tokens fuel (ends_word prev token.text) r
unfolding tokens
tokens-some fuel prev c t token r h = ap (after_match (tokens fuel) prev c t) h

pub taken :
    (prev : Bool) (s : Text) (token : Token) (r : Text)
    → match_at prev s ≡ some (token, r)
    → Takes prev s (some (token, r))
taken prev s token r h = subst (Takes prev s) h (Takes-match_at prev s)

filter-shown_text :
    (fuel : ℕ) (prev : Bool) (s : Text)
    → length s ≤ fuel
    → filter is_kept (shown_text (tokens fuel prev s)) ≡ filter is_kept s
unfolding shown_text is_kept
filter-shown_text zero prev [] h = unfold tokens in refl
filter-shown_text (suc fuel) prev [] h = unfold tokens in refl
filter-shown_text zero prev (c ∷ t) h = absurd (omega arith)
filter-shown_text (suc fuel) prev (c ∷ t) h = elim (Option-cases (match_at prev (c ∷ t))) [
  | inl e ↦
      let digit = is_digit_of_none prev c t e in
      let rest = filter-shown_text fuel (is_word c) t (omega arith) in
      ap (λ ts. filter is_kept (shown_text ts)) (tokens-none fuel prev c t e)
      ∙ rest
      ∙ sym (passed c t digit)
  | inr ((token, r), e) ↦
      let (joined, (edge, some_text)) = taken prev (c ∷ t) token r e in
      let size = shorter token.text r (c ∷ t) joined some_text in
      let rest = filter-shown_text fuel (ends_word prev token.text) r (omega arith) in
      ap (λ ts. filter is_kept (shown_text ts)) (tokens-some fuel prev c t token r e)
      ∙ filter-append is_kept token.text _
      ∙ ap (filter is_kept token.text ++◌) rest
      ∙ sym (filter-append is_kept token.text r)
      ∙ ap (filter is_kept) joined
]

-- `highlightJava` keeps every character of a source text in its order, except that it may lose digits:
-- what is shown and the source agree once the digits are taken out of both. The fuel, one unit for each
-- character, is enough.
pub filter-highlight_java :
    (src : Text) → filter is_kept (shown_text (highlight_java src)) ≡ filter is_kept src
unfolding highlight_java
filter-highlight_java src = filter-shown_text (length src) false src (omega arith)
