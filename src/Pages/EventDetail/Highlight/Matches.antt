-- ===== src/Pages/EventDetail/Highlight/Matches.antt =====
-- The alternatives of `highlightJava` at one position, together.
use jvm_scout.Base.{
  ℕ, [], ◌∷◌, ◌++◌, ◌≡◌, refl, ap, arith, Option, none, some, Bool, true, false, not, inl, ◌&&◌,
  ◌||◌, Text, nat_dec, is_empty, if◌then◌else◌, ◌==◌, is_space,
}
use jvm_scout.Pages.Versions.{is_digit}
use jvm_scout.Pages.EventDetail.Highlight.{
  Kind, Token, Match, is_word, is_letter, cons, span, prefixed, many, block_end, comment_at,
  quoted_end, quoted_at, after_digits, numeral_of, numeral_at, identifier_at, is_symbol, fraction,
  plus, labelled, ◌or_try◌, match_at, ends_word,
}
use jvm_scout.Pages.EventDetail.Highlight.Splits.{
  IsBoundary, Splits, Splits-if, Splits-span, Splits-comment_at, Splits-quoted_at, span-joined,
  span-ends,
}
use jvm_scout.Pages.EventDetail.Highlight.Numerals.{Splits-numeral_at}

IsProper-if : (P : Match → Type 0) (b : Bool) (x y : Match) → P x → P y → P (if b then x else y)
IsProper-if P true x y h k = h
IsProper-if P false x y h k = k

-- No match is empty.
abbrev IsProper : Match → Type 0
IsProper none = Unit
IsProper (some (m, r)) = is_empty m ≡ false

IsProper-prefixed : (c : ℕ) (p : Text) (o : Match) → IsProper (prefixed (c ∷ p) o)
IsProper-prefixed c p none = tt
IsProper-prefixed c p (some (m, r)) = refl

IsProper-comment_at : (s : Text) → IsProper (comment_at s)
unfolding comment_at
IsProper-comment_at [] = tt
IsProper-comment_at (c ∷ []) = tt
IsProper-comment_at (c ∷ d ∷ t) = IsProper-if IsProper (c == 47 && d == 47) _ _ refl (
    IsProper-if IsProper (c == 47 && d == 42) _ none (IsProper-prefixed c (d ∷ []) (block_end t))
      tt)

IsProper-quoted_at : (s : Text) → IsProper (quoted_at s)
unfolding quoted_at
IsProper-quoted_at [] = tt
IsProper-quoted_at (c ∷ t) =
    IsProper-if IsProper (c == 34) _ none (IsProper-prefixed c [] (quoted_end false t)) tt

IsProper-after_digits : (d : ℕ) (ds r : Text) → IsProper (after_digits (d ∷ ds) r)
IsProper-after_digits d ds [] = IsProper-prefixed d ds _
IsProper-after_digits d ds (c ∷ t) =
    IsProper-if IsProper (c == 46) (plus (d ∷ ds) (fraction t)) _ refl (IsProper-prefixed d ds _)

IsProper-numeral_of : (x : Text × Text) → IsProper (numeral_of x)
IsProper-numeral_of ([], r) = tt
IsProper-numeral_of (d ∷ ds, r) = IsProper-after_digits d ds r

IsProper-numeral_at : (prev : Bool) (s : Text) → IsProper (numeral_at prev s)
unfolding numeral_at
IsProper-numeral_at true s = tt
IsProper-numeral_at false s = IsProper-numeral_of (span is_digit s)

IsProper-identifier_at : (s : Text) → IsProper (identifier_at s)
unfolding identifier_at
IsProper-identifier_at [] = tt
IsProper-identifier_at (c ∷ t) =
    IsProper-if IsProper (is_letter c || (c == 95 || c == 36)) _ none refl tt

IsProper-many : (p : ℕ → Bool) (s : Text) → IsProper (many p s)
unfolding many
IsProper-many p [] = tt
IsProper-many p (c ∷ t) = IsProper-if IsProper (p c) _ none refl tt

Splits-identifier_at : (prev : Bool) (s : Text) → Splits prev s (identifier_at s)
unfolding identifier_at
Splits-identifier_at prev [] = tt
Splits-identifier_at prev (c ∷ t) =
    let run = Splits-span (λ u. is_word u || u == 36) (is_word c) t (λ u h. ground arith) in
    Splits-if prev (c ∷ t) (is_letter c || (c == 95 || c == 36))
      (some (cons c (span (λ u. is_word u || u == 36) t))) none (λ e. (ap (c ∷◌) run.0, run.1))
      (λ e. tt)

-- A run of characters that stand in no word.
Splits-many :
    (p : ℕ → Bool) (prev : Bool) (s : Text)
    → ((c : ℕ) → p c ≡ true → is_word c ≡ false)
    → Splits prev s (many p s)
unfolding many
Splits-many p prev [] h = tt
Splits-many p prev (c ∷ t) h =
    Splits-if prev (c ∷ t) (p c) (some (cons c (span p t))) none
      (λ e.
        let outside : not (ends_word (is_word c) (span p t).0) ≡ true =
          span-ends p not (is_word c) t (λ u k. ap not (h u k)) (ap not (h c e)) in
        (ap (c ∷◌) (span-joined p t), inl (ground arith)))
      (λ e. tt)

is_space-not_word : (c : ℕ) → is_space c ≡ true → is_word c ≡ false
unfolding is_word is_space
is_space-not_word c h = ground arith

-- What a match with its kind says of the text.
abbrev pub Takes : Bool → Text → Option (Token × Text) → Type 0
Takes prev s none = Unit
Takes prev s (some (token, r)) =
    (token.text ++ r ≡ s) × (IsBoundary prev token.text r × (is_empty token.text ≡ false))

Takes-or_try :
    (prev : Bool) (s : Text) (kind_of : Text → Kind) (o : Match) (rest : Option (Token × Text))
    → Splits prev s o
    → IsProper o
    → Takes prev s rest
    → Takes prev s (labelled kind_of o or_try rest)
Takes-or_try prev s kind_of none rest h k l = l
Takes-or_try prev s kind_of (some (m, r)) rest h k l = (h.0, (h.1, k))

Takes-labelled :
    (prev : Bool) (s : Text) (kind_of : Text → Kind) (o : Match)
    → Splits prev s o
    → IsProper o
    → Takes prev s (labelled kind_of o)
Takes-labelled prev s kind_of none h k = tt
Takes-labelled prev s kind_of (some (m, r)) h k = (h.0, (h.1, k))

pub Takes-match_at : (prev : Bool) (s : Text) → Takes prev s (match_at prev s)
unfolding match_at
Takes-match_at prev s =
    Takes-or_try prev s _ (comment_at s) _ (Splits-comment_at prev s) (IsProper-comment_at s) (
      Takes-or_try prev s _ (quoted_at s) _ (Splits-quoted_at prev s) (IsProper-quoted_at s) (
        Takes-or_try prev s _ (numeral_at prev s) _ (Splits-numeral_at prev s)
          (IsProper-numeral_at prev s)
          (Takes-or_try prev s _ (identifier_at s) _ (Splits-identifier_at prev s)
            (IsProper-identifier_at s)
            (Takes-or_try prev s _ (many is_symbol s) _
              (Splits-many is_symbol prev s (λ c h. ground arith)) (IsProper-many is_symbol s)
              (Takes-labelled prev s _ (many is_space s)
                (Splits-many is_space prev s is_space-not_word) (IsProper-many is_space s))))))
