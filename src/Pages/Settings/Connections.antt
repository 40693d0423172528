-- ===== src/Pages/Settings/Connections.antt =====
-- The integrations of frontend/src/routes/_authenticated/settings.tsx: what their toggle leaves in the
-- collector, and what the cards show then.
use jvm_scout.Base.{
  ◌≡◌, refl, sym, ap, ◌∙◌, arith, inl, inr, ◌∷◌, [], ◌++◌, List, Option, Option-cases, none, some,
  Bool, Bool-cases, true, false, Text, codes, text_dec, text_discrete, nat_dec, ℕ_discrete, map,
  lookup, Nodup, Mem_of_key, find, find-some, find-append, find-map, if◌then◌else◌, ◌==◌,
}
use jvm_scout.Client.Values.{Value, str, object, Row, column, strict_eq}
use jvm_scout.Adapter.Store.{id_of}
use jvm_scout.Adapter.Changes.{assign}
use jvm_scout.Pages.Settings.{has_type, connection_text}
use jvm_scout.Pages.Settings.Install.{shows_connected, is_connected}

abbrev pub status : Text
status = codes "status"

has_type-assign :
    (id type : Text) (v : Value) (r : Row) → has_type type (assign id status v r) ≡ has_type type r
unfolding column lookup text_discrete ℕ_discrete
has_type-assign id type v r = elim (Bool-cases (id_of r == id)) [
  | inl e ↦ rw (e) refl
  | inr e ↦ rw (e) refl
]

same_str :
    (v : Value) (t u : Text) → strict_eq v (str t) ≡ true → strict_eq v (str u) ≡ true → t ≡ u
same_str (str w) t u h k = ground arith
same_str Value.undefined t u h k = absurd (cc)
same_str Value.null t u h k = absurd (cc)
same_str object t u h k = absurd (cc)
same_str (Value.bool true) t u h k = absurd (cc)
same_str (Value.bool false) t u h k = absurd (cc)
same_str (Value.num n) t u h k = absurd (cc)

shown_status :
    (connect : Bool) (r : Row)
    → shows_connected (some ((status, str (connection_text connect)) ∷ r)) ≡ connect
unfolding column lookup text_discrete ℕ_discrete
shown_status true r = refl
shown_status false r = refl

if_true : {A : Type 0} (b : Bool) (x y : A) → b ≡ true → (if b then x else y) ≡ x
if_true b x y h = rw h refl

if_false : {A : Type 0} (b : Bool) (x y : A) → b ≡ false → (if b then x else y) ≡ y
if_false b x y h = rw h refl

abbrev on_row : (Row → Row) → Option Row → Option Row
on_row change o = elim o [ none ↦ none | some r ↦ some (change r) ]

assign_self :
    (connect : Bool) (r : Row)
    → shows_connected (some (assign (id_of r) status (str (connection_text connect)) r)) ≡ connect
assign_self connect r =
    let same : (id_of r == id_of r) ≡ true = ground arith in
    ap (λ x. shows_connected (some x)) (if_true (id_of r == id_of r) _ r same)
    ∙ shown_status connect r

abbrev or_made : Row → Bool → Option Row → Option Row
or_made made b o = elim o [ some a ↦ some a | none ↦ if b then some made else none ]

or_none : (made : Row) (o : Option Row) → or_made made false o ≡ o
or_none made none = refl
or_none made (some a) = refl

text_of_connection :
    (connect : Bool) → strict_eq (str (connection_text connect)) (str (codes "connected")) ≡ connect
unfolding text_discrete ℕ_discrete
text_of_connection true = refl
text_of_connection false = refl

module _ (rows : List Row) (type u : Text) (connect : Bool) where
  -- What the toggle makes of the rows, where it changes the row that it found.
  module _ (existing : Row) (distinct : Nodup (map id_of rows))
      (found : find (has_type type) rows ≡ some existing) where
    abbrev pub change : Row → Row
    change r = assign (id_of existing) status (str (connection_text connect)) r

    -- A row of another type is another row.
    other_row : (r : Row) → find (has_type u) rows ≡ some r → (type == u) ≡ false → change r ≡ r
    other_row r other apart = elim (Bool-cases (id_of r == id_of existing)) [
      | inl e ↦
          let (here, typed) = find-some (has_type type) rows existing found in
          let (there, marked) = find-some (has_type u) rows r other in
          let one : r ≡ existing =
            Mem_of_key id_of rows r existing distinct there here (ground arith) in
          let same : type ≡ u =
            same_str (column (codes "type") existing) type u typed
              (ap (has_type u) (sym one) ∙ marked) in
          absurd (ground arith)
      | inr e ↦ if_false (id_of r == id_of existing) _ r e
    ]

    pub toggled_existing :
        is_connected (map change rows) u ≡ (if type == u then connect else is_connected rows u)
    unfolding is_connected
    toggled_existing =
        let moved =
          find-map (has_type u) change rows
            (has_type-assign (id_of existing) u (str (connection_text connect))) in
        let shown = λ (o : Option Row). shows_connected (on_row change o) in
        elim (Bool-cases (type == u)) [
          | inl e ↦
              let same : type ≡ u = ground arith in
              ap shows_connected moved
              ∙ ap (λ t. shown (find (has_type t) rows)) (sym same)
              ∙ ap shown found
              ∙ assign_self connect existing
              ∙ sym (if_true (type == u) connect (shows_connected (find (has_type u) rows)) e)
          | inr e ↦
              ap shows_connected moved
              ∙ unchanged e
              ∙ sym (if_false (type == u) connect (shows_connected (find (has_type u) rows)) e)
        ]
      where
        unchanged :
            (type == u) ≡ false
            → shows_connected (on_row change (find (has_type u) rows))
              ≡ shows_connected (find (has_type u) rows)
        unchanged e = elim (Option-cases (find (has_type u) rows)) [
          | inl missing ↦ rw (missing) refl
          | inr (r, other) ↦
              ap (λ o. shows_connected (on_row change o)) other
              ∙ ap (λ x. shows_connected (some x)) (other_row r other e)
              ∙ ap shows_connected (sym other)
        ]

  -- Where it inserts a row.
  pub toggled_new :
      (made : Row)
      → find (has_type type) rows ≡ none
      → column (codes "type") made ≡ str type
      → column status made ≡ str (connection_text connect)
      → is_connected (rows ++ made ∷ []) u ≡ (if type == u then connect else is_connected rows u)
  unfolding is_connected
  toggled_new made missing typed marked =
      let ends = find-append (has_type u) rows made in
      let fits : has_type u made ≡ (type == u) = ap (λ v. strict_eq v (str u)) typed in
      elim (Bool-cases (type == u)) [
        | inl e ↦
            let same : type ≡ u = ground arith in
            let nothing : find (has_type u) rows ≡ none =
              ap (λ t. find (has_type t) rows) (sym same) ∙ missing in
            ap shows_connected ends
            ∙ ap (λ o. shows_connected (or_made made (has_type u made) o)) nothing
            ∙ ap shows_connected (if_true (has_type u made) (some made) none (fits ∙ e))
            ∙ ap (λ v. strict_eq v (str (codes "connected"))) marked
            ∙ text_of_connection connect
            ∙ sym (if_true (type == u) connect (shows_connected (find (has_type u) rows)) e)
        | inr e ↦
            ap shows_connected ends
            ∙ ap (λ b. shows_connected (or_made made b (find (has_type u) rows))) (fits ∙ e)
            ∙ ap shows_connected (or_none made (find (has_type u) rows))
            ∙ sym (if_false (type == u) connect (shows_connected (find (has_type u) rows)) e)
      ]
