-- ===== src/Adapter/Select.antt =====
-- Which rows a select returns, and in which order.
use jvm_scout.Base.{
  ℕ, ◌≤◌, ◌≡◌, refl, subst, sym, arith, List, Option, none, some, Bool, true, false, ◌↔◌, Text,
  text_dec, nat_dec, Ordering, all, All, All-of_Mem, All-Mem, Mem, Mem-filter, Mem-sort_by,
  Mem-take, Sorted-take, length, length-take-le, Sorted, IsOrder, sort_by, sort_by-Sorted, is_gt,
  flip_sign, str_lt, str_lt_irrefl, [], ◌∷◌, str_lt_asymm, str_lt_trans, str_lt_connex,
  if◌then◌else◌, ◌==◌,
}
use jvm_scout.Client.Values.{Value, str, Row, column}
use jvm_scout.Adapter.Query.{Query, OrderBy, passes, apply_filters, compare_rows}
use jvm_scout.Adapter.Meets.{Meets, all-passes-Meets}
use jvm_scout.Adapter.Run.{limited, ordered, selected}

-- The comparator of `run` at two texts.
abbrev compare_column : Bool → Text → Text → Ordering
compare_column ascending s t =
    if s == t
    then Ordering.eq
    else (let cmp = if str_lt s t then Ordering.lt else Ordering.gt in
        if ascending then cmp else flip_sign cmp)

column_asymm :
    (ascending : Bool) (s t : Text)
    → is_gt (compare_column ascending s t) ≡ true
    → is_gt (compare_column ascending t s) ≡ false
column_asymm true s t h = ground (arith, str_lt_connex s t)
column_asymm false s t h = ground (arith, str_lt_asymm s t)

column_trans :
    (ascending : Bool) (s t u : Text)
    → is_gt (compare_column ascending s t) ≡ false
    → is_gt (compare_column ascending t u) ≡ false
    → is_gt (compare_column ascending s u) ≡ false
column_trans true s t u h k = ground (arith, str_lt_trans s t u)
column_trans false s t u h k = ground (
  arith,
  str_lt_connex s t,
  str_lt_connex t u,
  str_lt_trans u t s,
  str_lt_asymm s u,
  str_lt_asymm t u,
  str_lt_asymm s t,
)

-- A text does not stand on the wrong side of another: not after it in an ascending order, and not
-- before it in a descending one.
abbrev pub IsBefore : Bool → Text → Text → Type 0
IsBefore true s t = str_lt t s ≡ false
IsBefore false s t = str_lt s t ≡ false

compare_column-IsBefore :
    (ascending : Bool) (s t : Text)
    → is_gt (compare_column ascending s t) ≡ false
    → IsBefore ascending s t
compare_column-IsBefore true s t h = ground (arith, str_lt_asymm s t, str_lt_irrefl s)
compare_column-IsBefore false s t h = ground (arith, str_lt_irrefl s)

-- The text of a value, empty where it is no text.
abbrev pub text_of : Value → Text
text_of (str t) = t
text_of _ = []

-- Each row stands before every later one in the order of the column's texts.
abbrev pub InOrder : OrderBy → List Row → Type 0
InOrder o [] = Unit {0}
InOrder o (r ∷ rs) =
    All (λ x. IsBefore o.ascending (text_of (column o.col r)) (text_of (column o.col x))) rs
    × InOrder o rs

module _ (number : Text → Option ℕ) where
  Mem-limited : (a : Row) (n : Option ℕ) (rs : List Row) → Mem a (limited n rs) → Mem a rs
  Mem-limited a none rs m = m
  Mem-limited a (some n) rs m = Mem-take a n rs m

  Mem-ordered :
      (a : Row) (o : Option OrderBy) (rs : List Row) → Mem a (ordered number o rs) ↔ Mem a rs
  Mem-ordered a none rs = (λ m. m, λ m. m)
  Mem-ordered a (some o) rs = Mem-sort_by (compare_rows number o) a rs

  -- The row has a text in the column.
  abbrev pub IsText : Text → Row → Type 0
  IsText col r = (t : Text) × (column col r ≡ str t)

  compare_rows_text :
      (o : OrderBy) (a b : Row) (s t : Text)
      → column o.col a ≡ str s
      → column o.col b ≡ str t
      → compare_rows number o a b ≡ compare_column o.ascending s t
  unfolding compare_rows
  compare_rows_text o a b s t e f = rw (e, f) refl

  compare_rows-IsOrder : (o : OrderBy) → IsOrder (IsText o.col) (compare_rows number o)
  compare_rows-IsOrder o = record {
    asymm = λ x y p q h.
        rw (compare_rows_text o y x q.0 p.0 q.1 p.1)
          (column_asymm o.ascending p.0 q.0 (rw (compare_rows_text o x y p.0 q.0 p.1 q.1) at h));
    trans = λ x y z p q r h k. rw (compare_rows_text o x z p.0 r.0 p.1 r.1) (
        column_trans o.ascending p.0 q.0 r.0 (rw (compare_rows_text o x y p.0 q.0 p.1 q.1) at h)
          (rw (compare_rows_text o y z q.0 r.0 q.1 r.1) at k));
  }

  -- A select returns rows of its table that pass every filter, and no others.
  pub selected_sound :
      (q : Query) (rs : List Row) (r : Row)
      → Mem r (selected number q rs)
      → Mem r rs × (all (passes r) q.filters ≡ true)
  unfolding selected apply_filters
  selected_sound q rs r m =
      (Mem-filter (λ x. all (passes x) q.filters) r rs).0
        ((Mem-ordered r q.order_by _).0 (Mem-limited r q.limit_n _ m))

  -- Without a limit every row that passes is returned.
  pub selected_complete :
      (q : Query) (rs : List Row) (r : Row)
      → q.limit_n ≡ none
      → Mem r rs
      → all (passes r) q.filters ≡ true
      → Mem r (selected number q rs)
  unfolding selected apply_filters
  selected_complete q rs r unlimited m h =
      subst (λ n. Mem r (limited n (ordered number q.order_by (apply_filters rs q.filters))))
        (sym unlimited)
        ((Mem-ordered r q.order_by _).1
          ((Mem-filter (λ x. all (passes x) q.filters) r rs).1 (m, h)))

  -- A select without a limit returns exactly the rows of its table that meet every filter: where the
  -- filter's column holds its value, or one of its values, and the value is no object.
  pub Mem-selected :
      (q : Query) (rs : List Row) (r : Row)
      → q.limit_n ≡ none
      → Mem r (selected number q rs) ↔ (Mem r rs × All (Meets r) q.filters)
  Mem-selected q rs r unlimited =
      let means = all-passes-Meets r q.filters in
      (
        λ m. let (there, h) = selected_sound q rs r m in (there, means.0 h),
        λ (m, h). selected_complete q rs r unlimited m (means.1 h),
      )

  selected-Sorted_rows :
      (q : Query) (rs : List Row) (o : OrderBy)
      → q.order_by ≡ some o
      → All (IsText o.col) rs
      → Sorted (compare_rows number o) (selected number q rs)
  unfolding selected apply_filters
  selected-Sorted_rows q rs o e h =
      subst
        (λ ob.
          Sorted (compare_rows number o)
            (limited q.limit_n (ordered number ob (apply_filters rs q.filters))))
        (sym e) (Sorted-limited q.limit_n)
    where
      passing : All (IsText o.col) (apply_filters rs q.filters)
      passing = All-of_Mem (IsText o.col) (apply_filters rs q.filters) (λ r m.
          All-Mem (IsText o.col) rs r h ((Mem-filter (λ x. all (passes x) q.filters) r rs).0 m).0)

      sorted_rows : List Row
      sorted_rows = sort_by (compare_rows number o) (apply_filters rs q.filters)

      whole : Sorted (compare_rows number o) sorted_rows
      whole =
          sort_by-Sorted (IsText o.col) (compare_rows number o) (compare_rows-IsOrder o) _ passing

      Sorted-limited : (n : Option ℕ) → Sorted (compare_rows number o) (limited n sorted_rows)
      Sorted-limited none = whole
      Sorted-limited (some n) = Sorted-take (compare_rows number o) n sorted_rows whole

  InOrder-of_Sorted :
      (o : OrderBy) (rs : List Row)
      → All (IsText o.col) rs
      → Sorted (compare_rows number o) rs
      → InOrder o rs
  InOrder-of_Sorted o [] h sorted = tt
  InOrder-of_Sorted o (r ∷ rs) (p, h) (least, sorted) = (
    All-of_Mem _ rs (λ x m.
        let q = All-Mem (IsText o.col) rs x h m in
        let le = All-Mem (λ y. is_gt (compare_rows number o r y) ≡ false) rs x least m in
        rw (p.1, q.1)
          (compare_column-IsBefore o.ascending p.0 q.0
            (rw (compare_rows_text o r x p.0 q.0 p.1 q.1) at le))),
    InOrder-of_Sorted o rs h sorted,
  )

  -- Where the column holds texts, the rows are returned in its order: of two of them the earlier has
  -- no text that stands after the later's, or in a descending order none that stands before it.
  pub selected-Sorted :
      (q : Query) (rs : List Row) (o : OrderBy)
      → q.order_by ≡ some o
      → All (IsText o.col) rs
      → InOrder o (selected number q rs)
  selected-Sorted q rs o e h =
      InOrder-of_Sorted o (selected number q rs)
        (All-of_Mem (IsText o.col) (selected number q rs)
          (λ r m. All-Mem (IsText o.col) rs r h (selected_sound q rs r m).0))
        (selected-Sorted_rows q rs o e h)

  -- A limit bounds the number of rows.
  length-selected-le :
      (q : Query) (rs : List Row) (n : ℕ) → q.limit_n ≡ some n → length (selected number q rs) ≤ n
  unfolding selected
  length-selected-le q rs n e =
      subst (λ l. length (limited l (ordered number q.order_by (apply_filters rs q.filters))) ≤ n)
        (sym e) (length-take-le n _)
