-- ===== src/Pages/Events/Csv.antt =====
-- The lists of values in the search parameters, written and read back.
use jvm_scout.Base.{
  ℕ, ◌≡◌, refl, ◌≢◌, sym, subst, ap, ◌∙◌, arith, ◌∷◌, [], ◌++◌, List, Bool, false, inl, inr, not,
  Text, text_dec, is_empty, split_on, split_on-append, split_on_of_Lacks, join_with, Lacks, set_of,
  add_all, add, delete, has, has-add, has-delete, has-append, not_has_of_Mem, append-nil,
  append_assoc, filter, All, Mem, Nodup, add-Nodup, set_of-Nodup, All-of_Mem, All-Mem, Mem-set_of,
  Mem-filter, if◌then◌else◌, ◌==◌, Bool-cases, cons_first, nat_dec,
}
use jvm_scout.Pages.Events.Search.{comma, csv_set, toggle_csv, is_given}

-- A value can be written between commas and read back.
pub record IsValue (v : Text) : Type 0 where
  pub plain : Lacks comma v
  pub given : is_empty v ≡ false

split_on-join_with :
    (v : Text) (vs : List Text)
    → All IsValue (v ∷ vs)
    → split_on comma (join_with comma (v ∷ vs)) ≡ v ∷ vs
unfolding join_with
split_on-join_with v [] (p, _) = split_on_of_Lacks comma v p.plain
split_on-join_with v (w ∷ vs) (p, h) =
    split_on-append comma v (join_with comma (w ∷ vs)) p.plain
    ∙ ap (◌∷◌ v) (split_on-join_with w vs h)

filter_given : (vs : List Text) → All IsValue vs → filter is_given vs ≡ vs
filter_given [] h = refl
filter_given (v ∷ vs) (p, h) = rw p.given (ap (◌∷◌ v) (filter_given vs h))

has_other : (v w : Text) (vs : List Text) → (¬ Mem v vs) → Mem w vs → has w (v ∷ []) ≡ false
has_other v w vs new m =
    not_has_of_Mem w (v ∷ [])
      (λ at_v. elim at_v [ inl e ↦ new (subst (λ x. Mem x vs) e m) | inr other ↦ other ])

add_all_new : (s vs : List Text) → All (λ v. has v s ≡ false) vs → Nodup vs → add_all s vs ≡ s ++ vs
unfolding add_all add
add_all_new s [] h n = sym (append-nil s)
add_all_new s (v ∷ vs) (p, h) (new, n) = rw p (
    add_all_new (s ++ v ∷ []) vs
      (All-of_Mem _ vs (λ w m.
        ground (arith, has-append w s (v ∷ []), All-Mem _ vs w h m, has_other v w vs new m)))
      n
    ∙ append_assoc s (v ∷ []) vs)

set_of_values : (vs : List Text) → Nodup vs → set_of vs ≡ vs
unfolding set_of has
set_of_values vs n = add_all_new [] vs (All-of_Mem _ vs (λ w m. refl)) n

no_values : set_of (filter is_given (split_on comma (join_with comma []))) ≡ []
unfolding set_of add_all split_on join_with
no_values = refl

-- A set of values that is written into the search is read back as it was.
pub csv_set-join_with :
    (vs : List Text) → Nodup vs → All IsValue vs → csv_set (join_with comma vs) ≡ vs
unfolding csv_set
csv_set-join_with [] n h = no_values
csv_set-join_with (v ∷ vs) n h =
    ap (λ ws. set_of (filter is_given ws)) (split_on-join_with v vs h)
    ∙ (ap set_of (filter_given (v ∷ vs) h) ∙ set_of_values (v ∷ vs) n)

-- What is between separators has no separator.
All-cons_first :
    (c : ℕ) (ws : List Text)
    → c ≢ comma
    → All (Lacks comma) ws
    → All (Lacks comma) (cons_first c ws)
All-cons_first c [] p h = ((p, tt), tt)
All-cons_first c (w ∷ ws) p (q, h) = ((p, q), h)

split_on-Lacks : (s : Text) → All (Lacks comma) (split_on comma s)
unfolding split_on
split_on-Lacks [] = (tt, tt)
split_on-Lacks (c ∷ s) = elim (Bool-cases (c == comma)) [
  | inl e ↦ rw e (tt, split_on-Lacks s)
  | inr e ↦ rw e (All-cons_first c (split_on comma s) (λ h. ground (arith, h)) (split_on-Lacks s))
]

csv_set-IsValue : (csv : Text) → All IsValue (csv_set csv)
unfolding csv_set
csv_set-IsValue csv = All-of_Mem IsValue (csv_set csv) (λ v m.
    let (part, given) =
      (Mem-filter is_given v (split_on comma csv)).0
        ((Mem-set_of v (filter is_given (split_on comma csv))).0 m) in
    record {
      plain = All-Mem (Lacks comma) (split_on comma csv) v (split_on-Lacks csv) part;
      given = ground (arith, given);
    })

csv_set-Nodup : (csv : Text) → Nodup (csv_set csv)
unfolding csv_set
csv_set-Nodup csv = set_of-Nodup (filter is_given (split_on comma csv))

All-append : (P : Text → Type 0) (xs ys : List Text) → All P xs → All P ys → All P (xs ++ ys)
All-append P [] ys h k = k
All-append P (x ∷ xs) ys (p, h) k = (p, All-append P xs ys h k)

toggled-IsValue : (v : Text) (vs : List Text) → IsValue v → All IsValue vs → All IsValue (add v vs)
unfolding add
toggled-IsValue v vs p h = elim (Bool-cases (has v vs)) [
  | inl e ↦ rw e h
  | inr e ↦ rw e (All-append IsValue vs (v ∷ []) h (p, tt))
]

filter-Nodup : (test : Text → Bool) (vs : List Text) → Nodup vs → Nodup (filter test vs)
filter-Nodup test [] n = tt
filter-Nodup test (v ∷ vs) (new, n) = elim (Bool-cases (test v)) [
  | inl e ↦ rw e ((λ m. new ((Mem-filter test v vs).0 m).0), filter-Nodup test vs n)
  | inr e ↦ rw e (filter-Nodup test vs n)
]

filter-IsValue :
    (test : Text → Bool) (vs : List Text) → All IsValue vs → All IsValue (filter test vs)
filter-IsValue test vs h =
    All-of_Mem IsValue (filter test vs)
      (λ v m. All-Mem IsValue vs v h ((Mem-filter test v vs).0 m).0)

delete-Nodup : (v : Text) (vs : List Text) → Nodup vs → Nodup (delete v vs)
unfolding delete
delete-Nodup v vs n = filter-Nodup (λ x. not (x == v)) vs n

delete-IsValue : (v : Text) (vs : List Text) → All IsValue vs → All IsValue (delete v vs)
unfolding delete
delete-IsValue v vs h = filter-IsValue (λ x. not (x == v)) vs h

-- A click on a value toggles it and no other: it is in the list that is read back exactly if it was not
-- in it before, and every other value is as it was. The value is not empty and has no comma.
pub csv_set-toggle_csv :
    (csv v w : Text)
    → IsValue v
    → has w (csv_set (toggle_csv csv v))
      ≡ (if v == w then not (has v (csv_set csv)) else has w (csv_set csv))
unfolding toggle_csv
csv_set-toggle_csv csv v w p =
    let set = csv_set csv in
    elim (Bool-cases (has v set)) [
      | inl old ↦ rw old (
          ap (has w) (
            csv_set-join_with (delete v set) (delete-Nodup v set (csv_set-Nodup csv))
              (delete-IsValue v set (csv_set-IsValue csv)))
          ∙ (ground (arith, has-delete w v set)))
      | inr new ↦ rw new (
          ap (has w) (
            csv_set-join_with (add v set) (add-Nodup v set (csv_set-Nodup csv))
              (toggled-IsValue v set p (csv_set-IsValue csv)))
          ∙ (ground (arith, has-add w v set)))
    ]
