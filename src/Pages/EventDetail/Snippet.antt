-- ===== src/Pages/EventDetail/Snippet.antt =====
-- The lines of a source snippet in frontend/src/routes/_authenticated/events.$id.tsx, which two regular
-- expressions take apart.
use jvm_scout.Base.{
  ℕ, ◌≡◌, ◌≢◌, refl, ap, ◌∙◌, arith, [], ◌∷◌, ◌++◌, List, Option, none, some, Bool, true, false,
  ◌||◌, Text, codes, nat_dec, ℕ_discrete, is_space, trim_start, starts_with, drop, is_empty, any,
  split_on, map, value_from, value_from-show, show, show-IsDigit, show-some, IsDigit, All,
  if◌then◌else◌, ◌==◌,
}
use jvm_scout.Pages.Versions.{is_digit}

pub record SourceLine : Type 0 where
  pub line_no : Option ℕ
  pub code : Text
  pub failing : Bool

-- What `.` does not match.
abbrev pub is_terminator : ℕ → Bool
is_terminator c = c == 10 || (c == 13 || (c == 8232 || c == 8233))

-- The group `(.*)$`: all of the text, if it has no line terminator.
abbrev pub to_end : Text → Option Text
to_end t = if any is_terminator t then none else some t

-- The text after `>>>` and one or more white spaces.
abbrev spaced : Text → Option Text
spaced [] = none
spaced (c ∷ t) = if is_space c then some (trim_start t) else none

unfoldable pub after_marker : Text → Option Text
after_marker t = if starts_with (codes ">>>") t then spaced (drop 3 t) else none

-- The leading digits, and the rest.
unfoldable pub span_digits : Text → Text × Text
span_digits [] = ([], [])
span_digits (c ∷ t) =
    let (ds, rest) = span_digits t in if is_digit c then (c ∷ ds, rest) else ([], c ∷ t)

-- `\s?`
abbrev pub optional_space : Text → Text
optional_space [] = []
optional_space (c ∷ t) = if is_space c then t else c ∷ t

-- `:\s?(.*)$`
abbrev pub after_colon : Text → Option Text
after_colon [] = none
after_colon (c ∷ t) = if c == 58 then to_end (optional_space t) else none

abbrev numbered_line : Bool → Text → Option Text → Option SourceLine
numbered_line failing ds none = none
numbered_line failing ds (some code) =
    some (record { line_no = some (value_from 0 ds); code = code; failing = failing })

-- `(\d+):\s?(.*)$`
unfoldable pub numbered : Bool → Text → Option SourceLine
numbered failing t =
    let (ds, rest) = span_digits t in
    if is_empty ds then none else numbered_line failing ds (after_colon rest)

-- The rest of the first expression, where the group of the marker took part or not.
abbrev with_number : Text → Option Text → Option SourceLine
with_number t none = numbered false t
with_number t (some rest) = numbered true rest

-- The first expression, after the white space at the start.
abbrev first_match : Text → Option SourceLine
first_match t = with_number t (after_marker t)

abbrev marked : Option Text → Option SourceLine
marked none = none
marked (some code) = some (record { line_no = none; code = code; failing = true })

-- The second expression.
abbrev second_match : Text → Option SourceLine
second_match t = elim (after_marker t) [ none ↦ none | some rest ↦ marked (to_end rest) ]

-- A raw line: the match of the first expression, else of the second, else the line as it is.
abbrev line_of : Text → Option SourceLine → Option SourceLine → SourceLine
line_of raw (some l) other = l
line_of raw none (some l) = l
line_of raw none none = record { line_no = none; code = raw; failing = false }

unfoldable pub parse_line : Text → SourceLine
parse_line raw = line_of raw (first_match (trim_start raw)) (second_match (trim_start raw))

-- `parsed`; the code unit 10 is the line feed.
unfoldable pub parse_snippet : Text → List SourceLine
parse_snippet source = map parse_line (split_on 10 source)

IsDigit-is_digit : (c : ℕ) → IsDigit c → is_digit c ≡ true
unfolding IsDigit
IsDigit-is_digit c h = ground arith

IsDigit-space : (c : ℕ) → IsDigit c → is_space c ≡ false
unfolding IsDigit is_space
IsDigit-space c h = ground arith

span_digits-append :
    (ds : Text) (c : ℕ) (t : Text)
    → All IsDigit ds
    → is_digit c ≡ false
    → span_digits (ds ++ c ∷ t) ≡ (ds, c ∷ t)
unfolding span_digits
span_digits-append [] c t h k = rw k refl
span_digits-append (d ∷ ds) c t (p, h) k =
    rw (IsDigit-is_digit d p, span_digits-append ds c t h k) refl

trim_start-append :
    (pad t : Text) → All (λ c. is_space c ≡ true) pad → trim_start (pad ++ t) ≡ trim_start t
unfolding trim_start
trim_start-append [] t h = refl
trim_start-append (c ∷ pad) t (p, h) = rw p (trim_start-append pad t h)

module _ (t : Text) where
  trim_start-digits : (ds : Text) → All IsDigit ds → ds ≢ [] → trim_start (ds ++ t) ≡ ds ++ t
  unfolding trim_start
  trim_start-digits [] h some_digit = absurd (some_digit refl)
  trim_start-digits (d ∷ ds) (p, h) some_digit = rw (IsDigit-space d p) refl

  after_marker-digits : (ds : Text) → All IsDigit ds → ds ≢ [] → after_marker (ds ++ t) ≡ none
  unfolding after_marker starts_with IsDigit
  after_marker-digits [] h some_digit = absurd (some_digit refl)
  after_marker-digits (d ∷ ds) (p, h) some_digit = ground arith

is_empty-some : (t : Text) → t ≢ [] → is_empty t ≡ false
is_empty-some [] h = absurd (h refl)
is_empty-some (c ∷ t) h = refl

-- `N: code`
abbrev pub line_text : ℕ → Text → Text
line_text n code = show n ++ 58 ∷ 32 ∷ code

module _ (n : ℕ) (code : Text) (one_line : any is_terminator code ≡ false) where
  after_colon-code : after_colon (58 ∷ 32 ∷ code) ≡ some code
  unfolding is_space ℕ_discrete
  after_colon-code = rw one_line refl

  numbered-line_text :
      (failing : Bool)
      → numbered failing (line_text n code)
        ≡ some (record { line_no = some n; code = code; failing = failing })
  unfolding numbered
  numbered-line_text failing =
      rw
        (
          span_digits-append (show n) 58 (32 ∷ code) (show-IsDigit n) refl,
          is_empty-some (show n) (show-some n),
          after_colon-code,
          value_from-show n,
        )
        refl

  trimmed : trim_start (line_text n code) ≡ (line_text n code)
  trimmed = trim_start-digits (58 ∷ 32 ∷ code) (show n) (show-IsDigit n) (show-some n)

  first_match-plain :
      first_match (line_text n code)
      ≡ some (record { line_no = some n; code = code; failing = false })
  first_match-plain =
      ap (with_number (line_text n code))
        (after_marker-digits (58 ∷ 32 ∷ code) (show n) (show-IsDigit n) (show-some n))
      ∙ numbered-line_text false

  after_marker-line_text :
      after_marker (codes ">>> " ++ (line_text n code)) ≡ some (line_text n code)
  unfolding after_marker starts_with is_space ℕ_discrete
  after_marker-line_text = rw trimmed refl

  first_match-failing :
      first_match (codes ">>> " ++ (line_text n code))
      ≡ some (record { line_no = some n; code = code; failing = true })
  first_match-failing =
      ap (with_number (codes ">>> " ++ (line_text n code))) after_marker-line_text
      ∙ numbered-line_text true

  trimmed_marker :
      trim_start (codes ">>> " ++ (line_text n code)) ≡ codes ">>> " ++ (line_text n code)
  unfolding trim_start is_space ℕ_discrete
  trimmed_marker = refl

  parsed :
      (pad t : Text) (l : SourceLine)
      → All (λ c. is_space c ≡ true) pad
      → trim_start t ≡ t
      → first_match t ≡ some l
      → parse_line (pad ++ t) ≡ l
  unfolding parse_line
  parsed pad t l h start e =
      let bare = trim_start-append pad t h ∙ start in
      ap (λ m. line_of (pad ++ t) m (second_match (trim_start (pad ++ t))))
        (ap first_match bare ∙ e)

  -- A line that is written with its number, after white space and, where the frame failed, the marker,
  -- is read back as its number, its code and the mark. The code is one line.
  pub parse_line-line_text :
      (pad : Text)
      → All (λ c. is_space c ≡ true) pad
      → (parse_line (pad ++ (line_text n code))
          ≡ record { line_no = some n; code = code; failing = false })
        × (parse_line (pad ++ (codes ">>> " ++ (line_text n code)))
            ≡ record { line_no = some n; code = code; failing = true })
  parse_line-line_text pad h = (
    parsed pad (line_text n code) _ h trimmed first_match-plain,
    parsed pad (codes ">>> " ++ (line_text n code)) _ h trimmed_marker first_match-failing,
  )
