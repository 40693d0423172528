-- ===== src/Client/Events/Summary.antt =====
-- What an event says of the rows that it stands for.
use jvm_scout.Base.{
  ◌-◌, ◌≡◌, refl, subst, arith, ◌∷◌, [], List, some, false, map, length, get_elem?, sum_by, Text,
  text_dec, All, Mem, All-Mem, All-of_Mem, get_elem?-Mem, compare_text, compare_text-IsOrder,
  Sorted, sort_by-Sorted, Sorted-last, none, codes, ◌⊎◌, inl, inr, Option-cases, ◌or_else◌,
  Mem-sort_by, length-sort_by, str_lt, str_lt_asymm, str_lt_irrefl, get_elem?_of_lt, ◌↔◌, is_gt,
}
use jvm_scout.Client.Rows.{ExceptionListRow, severity_for, location_for, ts_of, hits_of, app_id_of}
use jvm_scout.Client.Events.{EventRow, event_from, event_of, times_of, type_of}

-- `first` is the earliest of the times, and `last` the latest.
pub record IsSpan (times : List Text) (first last : Text) : Type 0 where
  pub first_mem : Mem first times
  pub last_mem : Mem last times
  pub first_least : All (λ t. str_lt t first ≡ false) times
  pub last_greatest : All (λ t. str_lt last t ≡ false) times

-- The event `e` sums up the group `g`: its first row is the representative, the times span those of
-- the rows, and the hits are the rows' hits.
pub record IsSummary (fp : Text) (g : List ExceptionListRow) (e : EventRow) : Type 0 where
  pub rep : ExceptionListRow
  pub first_row : get_elem? g 0 ≡ some rep
  pub id : e.id ≡ fp
  -- The first row's exception names the event, `java.lang.Throwable` where the row has none.
  pub name :
      ((n : Text) × ((rep.exception_type ≡ some n) × (e.name ≡ n)))
      ⊎ ((rep.exception_type ≡ none) × (e.name ≡ codes "java.lang.Throwable"))
  pub type : e.type ≡ type_of rep
  pub location : e.location ≡ location_for rep
  pub severity : e.severity ≡ severity_for rep
  pub application : e.application_id ≡ app_id_of rep
  pub hits : e.hit_count ≡ sum_by hits_of g
  pub span : IsSpan (map ts_of g) e.first_seen e.last_seen

not_before_first : (a b : Text) → is_gt (compare_text a b) ≡ false → str_lt b a ≡ false
not_before_first a b h = ground (arith, str_lt_asymm a b)

All-weaken : (P Q : Text → Type 0) (ts : List Text) → ((t : Text) → P t → Q t) → All P ts → All Q ts
All-weaken P Q [] f h = tt
All-weaken P Q (t ∷ ts) f (p, h) = (f t p, All-weaken P Q ts f h)

module _ (times : List Text) where
  All-of_same :
      (P : Text → Type 0) (s : List Text)
      → ((a : Text) → Mem a times → Mem a s)
      → All P s
      → All P times
  All-of_same P s same h = All-of_Mem P times (λ a m. All-Mem P s a h (same a m))

  -- The first and the last of a sorted list of the times span them.
  IsSpan-of_Sorted :
      (s : List Text) (first last : Text)
      → ((a : Text) → Mem a s ↔ Mem a times)
      → Sorted compare_text s
      → get_elem? s 0 ≡ some first
      → get_elem? s (length s - 1) ≡ some last
      → IsSpan times first last
  IsSpan-of_Sorted [] first last same sorted f l = cc
  IsSpan-of_Sorted (u ∷ us) first last same (least, sorted) f l = record {
    first_mem = (same first).0 (get_elem?-Mem (u ∷ us) 0 first f);
    last_mem = (same last).0 (get_elem?-Mem (u ∷ us) _ last l);
    first_least =
        let e : u ≡ first = cc in
        All-of_same (λ t. str_lt t first ≡ false) (u ∷ us) (λ a. (same a).1)
          (subst (λ v. All (λ t. str_lt t v ≡ false) (u ∷ us)) e
            (str_lt_irrefl u, All-weaken _ _ us (λ t h. not_before_first u t h) least));
    last_greatest =
        All-of_same (λ t. str_lt last t ≡ false) (u ∷ us) (λ a. (same a).1)
          (All-weaken _ _ (u ∷ us) (λ t h. not_before_first t last h)
            (Sorted-last (λ _. Unit {0}) compare_text compare_text-IsOrder (u ∷ us) last
              (All-of_Mem (λ _. Unit {0}) (u ∷ us) (λ _ _. tt)) (least, sorted) l));
  }

named_by_first :
    (r : ExceptionListRow)
    → ((n : Text) × ((r.exception_type ≡ some n)
          × ((r.exception_type or_else codes "java.lang.Throwable") ≡ n)))
      ⊎ ((r.exception_type ≡ none)
          × ((r.exception_type or_else codes "java.lang.Throwable") ≡ codes "java.lang.Throwable"))
named_by_first r = elim (Option-cases r.exception_type) [
  | inl e ↦ inr (e, rw e refl)
  | inr (n, e) ↦ inl (n, (e, rw e refl))
]

-- An event is made of every group that is not empty, and it sums the group up.
pub event_of_group :
    (fp : Text) (r : ExceptionListRow) (rs : List ExceptionListRow)
    → (e : EventRow) × (event_of (fp, r ∷ rs) ≡ some e) × IsSummary fp (r ∷ rs) e
unfolding event_of
event_of_group fp r rs =
    let g : List ExceptionListRow = r ∷ rs in
    let n = length-sort_by compare_text (map ts_of g) in
    let (first, f) = get_elem?_of_lt (times_of g) 0 (omega (arith, n)) in
    let (last, l) = get_elem?_of_lt (times_of g) (length (times_of g) - 1) (omega (arith, n)) in
    (
      event_from fp g r first last,
      rw (f, l) refl,
      record {
        rep = r;
        first_row = refl;
        id = refl;
        name = named_by_first r;
        type = refl;
        location = refl;
        severity = refl;
        application = refl;
        hits = refl;
        span =
            IsSpan-of_Sorted (map ts_of g) (times_of g) first last
              (λ a. Mem-sort_by compare_text a (map ts_of g))
              (sort_by-Sorted (λ _. Unit {0}) compare_text compare_text-IsOrder (map ts_of g)
                (All-of_Mem (λ _. Unit {0}) (map ts_of g) (λ _ _. tt)))
              f l;
      },
    )
