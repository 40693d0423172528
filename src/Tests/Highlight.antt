-- ===== src/Tests/Highlight.antt =====
-- The theorems about the highlighted source at concrete inputs.
use jvm_scout.Base.{
  ◌<◌, length, ◌≡◌, refl, map, filter, has, Text, codes, is_space, text_dec, text_discrete,
  ℕ_discrete, ◌∷◌, [], false, true,
}
use jvm_scout.Pages.EventDetail.Highlight.{
  comment, quoted, numeral, keyword, identifier, symbol, space, is_word, span, many, block_end,
  comment_at, quoted_end, quoted_at, numeral_end, fraction, numeral_at, identifier_at,
  kind_of_identifier, match_at, tokens, highlight_java, shown_text, java_keywords,
}
use jvm_scout.Pages.EventDetail.Highlight.Lossless.{is_kept, filter-highlight_java}
use jvm_scout.Pages.Versions.{is_digit}
use jvm_scout.Pages.EventDetail.Highlight.Lost.{highlight_java-loses}
use jvm_scout.Pages.EventDetail.Highlight.Plain.{ends_numeral, is_plain, shown_text-highlight_java}

abbrev statement : Text
statement = codes "return Cart.at(12L, 1.5); // \"x\""

statement-is_plain : is_plain false statement ≡ true
unfolding is_plain is_word span ℕ_discrete
statement-is_plain = refl

kinds_of_statement :
    map (λ t. t.kind) (highlight_java (codes "if (total > 1.5f) s = \"a b\"; // no"))
    ≡ keyword ∷ space ∷ symbol ∷ identifier ∷ space ∷ symbol ∷ space ∷ numeral ∷ symbol ∷ space
      ∷ identifier ∷ space ∷ symbol ∷ space ∷ quoted ∷ symbol ∷ space ∷ comment ∷ []
unfolding highlight_java tokens match_at comment_at quoted_at quoted_end block_end numeral_at
    numeral_end fraction identifier_at many span kind_of_identifier java_keywords is_word is_space
    has text_discrete ℕ_discrete
kinds_of_statement = refl

hexadecimal : shown_text (highlight_java (codes "0x1F")) ≡ codes "x1F"
unfolding shown_text highlight_java tokens match_at comment_at quoted_at quoted_end block_end
    numeral_at numeral_end fraction identifier_at many span kind_of_identifier java_keywords is_word
    is_space has text_discrete ℕ_discrete
hexadecimal = refl

filter-highlight_java_example :
    filter is_kept (shown_text (highlight_java (codes "mask = 0x1F;")))
    ≡ filter is_kept (codes "mask = 0x1F;")
filter-highlight_java_example = filter-highlight_java (codes "mask = 0x1F;")

shown_text-highlight_java_example : shown_text (highlight_java statement) ≡ statement
shown_text-highlight_java_example = shown_text-highlight_java statement statement-is_plain

hexadecimal-open : ends_numeral (span is_digit (codes "x1F")).1 ≡ false
unfolding is_word span ℕ_discrete
hexadecimal-open = refl

highlight_java-loses_example : length (shown_text (highlight_java (codes "0x1F"))) < 4
highlight_java-loses_example = highlight_java-loses b'0' (codes "x1F") refl hexadecimal-open
