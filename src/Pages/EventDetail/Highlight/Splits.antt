-- ===== src/Pages/EventDetail/Highlight/Splits.antt =====
-- The alternatives of `highlightJava` split the text, and not inside a word.
use jvm_scout.Base.{
  ℕ, [], ◌∷◌, ◌++◌, ◌≡◌, refl, ap, arith, none, some, Bool, Bool-cases, true, false, not, inl, inr,
  ◌&&◌, Text, nat_dec, append_assoc, if◌then◌else◌, ◌==◌, ◌∙◌, ◌⊎◌,
}
use jvm_scout.Pages.EventDetail.Highlight.{
  Match, is_word, at_word, cons, span, prefixed, block_end, comment_at, quoted_end, quoted_at,
  ends_word,
}

-- The end of a match is no place inside a word.
abbrev pub IsBoundary : Bool → Text → Text → Type 0
IsBoundary prev m r = (ends_word prev m ≡ false) ⊎ (at_word r ≡ false)

abbrev pub Splits : Bool → Text → Match → Type 0
Splits prev s none = Unit
Splits prev s (some (m, r)) = (m ++ r ≡ s) × IsBoundary prev m r

pub Splits-if :
    (prev : Bool) (s : Text) (b : Bool) (x y : Match)
    → (b ≡ true → Splits prev s x)
    → (b ≡ false → Splits prev s y)
    → Splits prev s (if b then x else y)
Splits-if prev s true x y h k = h refl
Splits-if prev s false x y h k = k refl

ends_word-append :
    (prev : Bool) (p m : Text) → ends_word prev (p ++ m) ≡ ends_word (ends_word prev p) m
ends_word-append prev [] m = refl
ends_word-append prev (c ∷ p) m = ends_word-append (is_word c) p m

pub Splits-prefixed :
    (prev : Bool) (p s : Text) (o : Match)
    → Splits (ends_word prev p) s o
    → Splits prev (p ++ s) (prefixed p o)
Splits-prefixed prev p s none h = tt
Splits-prefixed prev p s (some (m, r)) (e, b) = (
  append_assoc p m r ∙ ap (p ++◌) e,
  elim b [ inl h ↦ inl (ends_word-append prev p m ∙ h) | inr h ↦ inr h ],
)

Splits-cons :
    (prev : Bool) (c : ℕ) (s : Text) (o : Match)
    → Splits (is_word c) s o
    → Splits prev (c ∷ s) (prefixed (c ∷ []) o)
Splits-cons prev c s none h = tt
Splits-cons prev c s (some (m, r)) (e, b) = (ap (c ∷◌) e, b)

pub span-joined : (p : ℕ → Bool) (s : Text) → (span p s).0 ++ (span p s).1 ≡ s
unfolding span
span-joined p [] = refl
span-joined p (c ∷ t) = elim (Bool-cases (p c)) [
  | inl h ↦ simp (h, span-joined p t)
  | inr h ↦ simp (h)
]

abbrev heads : (ℕ → Bool) → Text → Bool
heads p [] = false
heads p (c ∷ t) = p c

span-stop : (p : ℕ → Bool) (s : Text) → heads p (span p s).1 ≡ false
unfolding span
span-stop p [] = refl
span-stop p (c ∷ t) = elim (Bool-cases (p c)) [ inl h ↦ simp (h, span-stop p t) | inr h ↦ simp (h) ]

-- A run of characters that are none of a word ends outside of one.
pub span-ends :
    (p : ℕ → Bool) (q : Bool → Bool) (prev : Bool) (s : Text)
    → ((c : ℕ) → p c ≡ true → q (is_word c) ≡ true)
    → q prev ≡ true
    → q (ends_word prev (span p s).0) ≡ true
unfolding span
span-ends p q prev [] h k = k
span-ends p q prev (c ∷ t) h k = elim (Bool-cases (p c)) [
  | inl e ↦ rw (e) (span-ends p q (is_word c) t h (h c e))
  | inr e ↦ rw (e) k
]

Splits-block_end : (prev : Bool) (s : Text) → Splits prev s (block_end s)
unfolding block_end is_word
Splits-block_end prev [] = tt
Splits-block_end prev (c ∷ []) = tt
Splits-block_end prev (c ∷ d ∷ t) =
    Splits-if prev (c ∷ d ∷ t) (c == 42 && d == 47) (some (c ∷ d ∷ [], t))
      (prefixed (c ∷ []) (block_end (d ∷ t))) (λ e. (refl, inl (ground arith)))
      (λ e. Splits-cons prev c (d ∷ t) (block_end (d ∷ t)) (Splits-block_end (is_word c) (d ∷ t)))

Splits-quoted_end : (escaped prev : Bool) (s : Text) → Splits prev s (quoted_end escaped s)
unfolding quoted_end is_word
Splits-quoted_end escaped prev [] = tt
Splits-quoted_end true prev (c ∷ t) =
    Splits-if prev (c ∷ t) _ none (prefixed (c ∷ []) (quoted_end false t)) (λ e. tt)
      (λ e. Splits-cons prev c t (quoted_end false t) (Splits-quoted_end false (is_word c) t))
Splits-quoted_end false prev (c ∷ t) =
    Splits-if prev (c ∷ t) (c == 34) (some (c ∷ [], t)) (prefixed (c ∷ []) (quoted_end (c == 92) t))
      (λ e. (refl, inl (ground arith)))
      (λ e.
        Splits-cons prev c t (quoted_end (c == 92) t) (Splits-quoted_end (c == 92) (is_word c) t))

-- A run of what all words pass is not followed by a word.
at_word_of_heads :
    (p : ℕ → Bool) (r : Text)
    → ((c : ℕ) → p c ≡ false → is_word c ≡ false)
    → heads p r ≡ false
    → at_word r ≡ false
at_word_of_heads p [] h k = refl
at_word_of_heads p (c ∷ t) h k = h c k

pub Splits-span :
    (p : ℕ → Bool) (prev : Bool) (s : Text)
    → ((c : ℕ) → p c ≡ false → is_word c ≡ false)
    → Splits prev s (some (span p s))
Splits-span p prev s h = (span-joined p s, inr (at_word_of_heads p (span p s).1 h (span-stop p s)))

pub Splits-comment_at : (prev : Bool) (s : Text) → Splits prev s (comment_at s)
unfolding comment_at is_word
Splits-comment_at prev [] = tt
Splits-comment_at prev (c ∷ []) = tt
Splits-comment_at prev (c ∷ d ∷ t) =
    let line = Splits-span (λ u. not (u == 10)) (is_word d) t (λ u h. ground arith) in
    Splits-if prev (c ∷ d ∷ t) (c == 47 && d == 47)
      (some (cons c (cons d (span (λ u. not (u == 10)) t))))
      (if c == 47 && d == 42 then prefixed (c ∷ d ∷ []) (block_end t) else none)
      (λ e. Splits-prefixed prev (c ∷ d ∷ []) t (some (span (λ u. not (u == 10)) t)) line)
      (λ e.
        Splits-if prev (c ∷ d ∷ t) (c == 47 && d == 42) (prefixed (c ∷ d ∷ []) (block_end t)) none
          (λ f. Splits-prefixed prev (c ∷ d ∷ []) t (block_end t) (Splits-block_end (is_word d) t))
          (λ f. tt))

pub Splits-quoted_at : (prev : Bool) (s : Text) → Splits prev s (quoted_at s)
unfolding quoted_at
Splits-quoted_at prev [] = tt
Splits-quoted_at prev (c ∷ t) =
    Splits-if prev (c ∷ t) (c == 34) (prefixed (c ∷ []) (quoted_end false t)) none
      (λ e. Splits-cons prev c t (quoted_end false t) (Splits-quoted_end false (is_word c) t))
      (λ e. tt)
