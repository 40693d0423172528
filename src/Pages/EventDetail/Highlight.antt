-- ===== src/Pages/EventDetail/Highlight.antt =====
-- `highlightJava` of frontend/src/routes/_authenticated/events.$id.tsx: its regular expression as a
-- scanner. What an alternative matches stands before the rest of the text.
pub mod Splits
pub mod Numerals
pub mod Matches
pub mod Lossless
pub mod Plain
pub mod Lost
use jvm_scout.Base.{
  ℕ, zero, suc, [], ◌∷◌, ◌++◌, List, Option, none, some, Bool, true, false, not, ◌&&◌, ◌||◌, Text,
  codes, nat_dec, text_dec, is_space, has, leb, length, map, if◌then◌else◌, ◌==◌,
}
use jvm_scout.Pages.Versions.{is_digit}
use jvm_scout.Pages.EventDetail.Snippet.{is_terminator}

-- What a match is shown as.
pub data Kind : Type 0 where
  comment quoted numeral keyword capitalised identifier symbol space : Kind

pub record Token : Type 0 where
  pub kind : Kind
  pub text : Text

abbrev pub Match : Type 0
Match = Option (Text × Text)

abbrev pub is_letter : ℕ → Bool
is_letter c = (leb 65 c && leb c 90) || (leb 97 c && leb c 122)

-- `\w`
unfoldable pub is_word : ℕ → Bool
is_word c = is_letter c || (is_digit c || c == 95)

abbrev pub at_word : Text → Bool
at_word [] = false
at_word (c ∷ t) = is_word c

abbrev pub cons : ℕ → Text × Text → Text × Text
cons c (m, r) = (c ∷ m, r)

-- The longest prefix whose code units pass the test, and the rest.
unfoldable pub span : (ℕ → Bool) → Text → Text × Text
span p [] = ([], [])
span p (c ∷ t) = let rest = span p t in if p c then cons c rest else ([], c ∷ t)

abbrev pub prefixed : Text → Match → Match
prefixed p none = none
prefixed p (some (m, r)) = some (p ++ m, r)

-- `[...]+`
unfoldable pub many : (ℕ → Bool) → Text → Match
many p [] = none
many p (c ∷ t) = if p c then some (cons c (span p t)) else none

-- `[\s\S]*?\*\/`, after `/*`.
unfoldable pub block_end : Text → Match
block_end [] = none
block_end (c ∷ []) = none
block_end (c ∷ d ∷ t) =
    let rest = block_end (d ∷ t) in
    if c == 42 && d == 47 then some (c ∷ d ∷ [], t) else prefixed (c ∷ []) rest

-- `\/\/[^\n]*|\/\*[\s\S]*?\*\/`
unfoldable pub comment_at : Text → Match
comment_at [] = none
comment_at (c ∷ []) = none
comment_at (c ∷ d ∷ t) =
    if c == 47 && d == 47
    then some (cons c (cons d (span (λ u. not (u == 10)) t)))
    else if c == 47 && d == 42
    then prefixed (c ∷ d ∷ []) (block_end t)
    else none

-- `(?:\\.|[^"\\])*"`, after the first quotation mark; whether a backslash stands before the text.
unfoldable pub quoted_end : Bool → Text → Match
quoted_end escaped [] = none
quoted_end true (c ∷ t) =
    let rest = quoted_end false t in if is_terminator c then none else prefixed (c ∷ []) rest
quoted_end false (c ∷ t) =
    let rest = quoted_end (c == 92) t in
    if c == 34 then some (c ∷ [], t) else prefixed (c ∷ []) rest

unfoldable pub quoted_at : Text → Match
quoted_at [] = none
quoted_at (c ∷ t) = if c == 34 then prefixed (c ∷ []) (quoted_end false t) else none

-- `[fFdDlL]`
abbrev pub is_suffix : ℕ → Bool
is_suffix c = c == 102 || (c == 70 || (c == 100 || (c == 68 || (c == 108 || c == 76))))

-- `[fFdDlL]?\b`, after a digit.
unfoldable pub numeral_end : Text → Match
numeral_end [] = some ([], [])
numeral_end (c ∷ t) =
    if is_suffix c && not (at_word t)
    then some (c ∷ [], t)
    else if is_word c
    then none
    else some ([], c ∷ t)

-- What belongs to a numeral of a dot and the text after it: with digits after the dot the best match
-- ends after them, and the match that is left without one is the dot.
abbrev pub dot_or : Text → Match → Text × Text
dot_or t none = (46 ∷ [], t)
dot_or t (some (m, r)) = (46 ∷ m, r)

abbrev pub dot_alone : Text → Text × Text
dot_alone [] = ([], 46 ∷ [])
dot_alone (c ∷ t) =
    if is_suffix c && not (at_word t)
    then (46 ∷ c ∷ [], t)
    else if is_word c
    then (46 ∷ [], c ∷ t)
    else ([], 46 ∷ c ∷ t)

abbrev pub fraction_of : Text → Text × Text → Text × Text
fraction_of t ([], r) = dot_alone t
fraction_of t (d ∷ ds, r) = dot_or t (prefixed (d ∷ ds) (numeral_end r))

unfoldable pub fraction : Text → Text × Text
fraction t = fraction_of t (span is_digit t)

abbrev pub plus : Text → Text × Text → Match
plus p (m, r) = some (p ++ m, r)

abbrev pub after_digits : Text → Text → Match
after_digits ds [] = prefixed ds (numeral_end [])
after_digits ds (c ∷ t) =
    if c == 46 then plus ds (fraction t) else prefixed ds (numeral_end (c ∷ t))

abbrev pub numeral_of : Text × Text → Match
numeral_of ([], r) = none
numeral_of (d ∷ ds, r) = after_digits (d ∷ ds) r

-- `\b\d+\.?\d*[fFdDlL]?\b`, after a word character or not.
unfoldable pub numeral_at : Bool → Text → Match
numeral_at true s = none
numeral_at false s = numeral_of (span is_digit s)

-- `[A-Za-z_$][\w$]*`
unfoldable pub identifier_at : Text → Match
identifier_at [] = none
identifier_at (c ∷ t) =
    if is_letter c || (c == 95 || c == 36)
    then some (cons c (span (λ u. is_word u || u == 36) t))
    else none

-- `[^\s\w]`
abbrev pub is_symbol : ℕ → Bool
is_symbol c = not (is_space c) && not (is_word c)

-- `JAVA_KEYWORDS`
unfoldable pub java_keywords : List Text
java_keywords = map codes (
    "abstract" ∷ "assert" ∷ "boolean" ∷ "break" ∷ "byte" ∷ "case" ∷ "catch" ∷ "char" ∷ "class"
    ∷ "const" ∷ "continue" ∷ "default" ∷ "do" ∷ "double" ∷ "else" ∷ "enum" ∷ "extends" ∷ "final"
    ∷ "finally" ∷ "float" ∷ "for" ∷ "goto" ∷ "if" ∷ "implements" ∷ "import" ∷ "instanceof" ∷ "int"
    ∷ "interface" ∷ "long" ∷ "native" ∷ "new" ∷ "package" ∷ "private" ∷ "protected" ∷ "public"
    ∷ "return" ∷ "short" ∷ "static" ∷ "strictfp" ∷ "super" ∷ "switch" ∷ "synchronized" ∷ "this"
    ∷ "throw" ∷ "throws" ∷ "transient" ∷ "try" ∷ "void" ∷ "volatile" ∷ "while" ∷ "true" ∷ "false"
    ∷ "null" ∷ "var" ∷ "record" ∷ "yield" ∷ [])

-- `/^[A-Z]/`
abbrev pub is_capitalised : Text → Bool
is_capitalised [] = false
is_capitalised (c ∷ t) = leb 65 c && leb c 90

unfoldable pub kind_of_identifier : Text → Kind
kind_of_identifier m =
    if has m java_keywords then keyword else if is_capitalised m then capitalised else identifier

abbrev pub labelled : (Text → Kind) → Match → Option (Token × Text)
labelled kind_of none = none
labelled kind_of (some (m, r)) = some (record { kind = kind_of m; text = m }, r)

infixr 20 ◌or_try◌
abbrev pub ◌or_try◌ {ℓ} : {A : Type ℓ} → Option A → Option A → Option A
none or_try b = b
some a or_try b = some a

-- The alternatives at one position, in their order.
unfoldable pub match_at : Bool → Text → Option (Token × Text)
match_at prev s =
    labelled (λ _. comment) (comment_at s)
    or_try labelled (λ _. quoted) (quoted_at s)
    or_try labelled (λ _. numeral) (numeral_at prev s)
    or_try labelled kind_of_identifier (identifier_at s)
    or_try labelled (λ _. symbol) (many is_symbol s)
    or_try labelled (λ _. space) (many is_space s)

-- Whether a text ends with a word character, after one or not.
abbrev pub ends_word : Bool → Text → Bool
ends_word prev [] = prev
ends_word prev (c ∷ t) = ends_word (is_word c) t

-- A round of the loop, with the scan of the rest; where nothing matches it goes on at the next code unit.
abbrev pub after_match :
    (Bool → Text → List Token) → Bool → ℕ → Text → Option (Token × Text) → List Token
after_match scan prev c t none = scan (is_word c) t
after_match scan prev c t (some (token, r)) = token ∷ scan (ends_word prev token.text) r

-- The matches of the loop.
unfoldable pub tokens : ℕ → Bool → Text → List Token
tokens zero prev s = []
tokens (suc fuel) prev [] = []
tokens (suc fuel) prev (c ∷ t) = after_match (tokens fuel) prev c t (match_at prev (c ∷ t))

-- `highlightJava`
unfoldable pub highlight_java : Text → List Token
highlight_java src = tokens (length src) false src

-- The text that is shown.
unfoldable pub shown_text : List Token → Text
shown_text [] = []
shown_text (token ∷ ts) = token.text ++ shown_text ts
