-- ===== src/Adapter/Ids.antt =====
-- The ids of the rows of a table, as frontend/src/integrations/collector/adapter.ts deletes by them.
use jvm_scout.Base.{
  ◌≡◌, ◌≢◌, Mem, Mem-map, Mem_of_map, Mem-filter, refl, subst, sym, ap, ◌∙◌, arith, ◌∷◌, [], List,
  Bool, true, false, inl, inr, not, not_has_of_Mem, Text, text_dec, map, filter, has, Nodup, ◌==◌,
  Bool-cases, nat_dec,
}
use jvm_scout.Client.Values.{Row}
use jvm_scout.Adapter.Store.{id_of}

pub Mem-ids_of_filter :
    (P : Row → Bool) (j : Text) (rs : List Row)
    → Mem j (map id_of (filter P rs))
    → Mem j (map id_of rs)
Mem-ids_of_filter P j rs m =
    let (r, (there, e)) = Mem_of_map id_of j (filter P rs) m in
    subst (λ i. Mem i (map id_of rs)) e (Mem-map id_of r rs ((Mem-filter P r rs).0 there).0)

pub Nodup-ids_of_filter :
    (P : Row → Bool) (rs : List Row) → Nodup (map id_of rs) → Nodup (map id_of (filter P rs))
Nodup-ids_of_filter P [] n = tt
Nodup-ids_of_filter P (r ∷ rs) (new, n) = elim (Bool-cases (P r)) [
  | inl e ↦ rw e (λ m. new (Mem-ids_of_filter P (id_of r) rs m), Nodup-ids_of_filter P rs n)
  | inr e ↦ rw e (Nodup-ids_of_filter P rs n)
]

-- The other ids stay when the rows of one are dropped.
pub Mem-ids_of_others :
    (id j : Text) (rs : List Row)
    → j ≢ id
    → Mem j (map id_of rs)
    → Mem j (map id_of (filter (λ r. not (id_of r == id)) rs))
Mem-ids_of_others id j rs other m =
    let kept = λ (r : Row). not (id_of r == id) in
    let (r, (there, e)) = Mem_of_map id_of j rs m in
    let stays : not (id_of r == id) ≡ true = elim (Bool-cases (id_of r == id)) [
      | inl same ↦ absurd (other (sym e ∙ ground (arith, same)))
      | inr differs ↦ rw differs refl
    ] in
    subst (λ i. Mem i (map id_of (filter kept rs))) e
      (Mem-map id_of r (filter kept rs) ((Mem-filter kept r rs).1 (there, stays)))

pub filter-filter-ids :
    (id : Text) (ids : List Text) (rs : List Row)
    → filter (λ r. not (has (id_of r) ids)) (filter (λ r. not (id_of r == id)) rs)
      ≡ filter (λ r. not (has (id_of r) (id ∷ ids))) rs
unfolding has
filter-filter-ids id ids [] = refl
filter-filter-ids id ids (r ∷ rs) = ground (arith, filter-filter-ids id ids rs)

pub filter_all : (rs : List Row) → filter (λ r. not (has (id_of r) [])) rs ≡ rs
unfolding has
filter_all [] = refl
filter_all (r ∷ rs) = ap (◌∷◌ r) (filter_all rs)

has-ids_none :
    (P : Row → Bool) (id : Text) (rs : List Row)
    → has id (map id_of rs) ≡ false
    → has id (map id_of (filter P rs)) ≡ false
unfolding has
has-ids_none P id [] h = refl
has-ids_none P id (r ∷ rs) h = ground (arith, has-ids_none P id rs)

filter_fresh_id :
    (id : Text) (ids : List Text) (rs : List Row)
    → has id (map id_of rs) ≡ false
    → filter (λ r. not (has (id_of r) (id ∷ ids))) rs ≡ filter (λ r. not (has (id_of r) ids)) rs
unfolding has
filter_fresh_id id ids [] h = refl
filter_fresh_id id ids (r ∷ rs) h = ground (arith, filter_fresh_id id ids rs)

-- Where no two rows share an id, dropping the ids of the rows that pass drops those rows.
pub filter-ids_of_passing :
    (P : Row → Bool) (rs : List Row)
    → Nodup (map id_of rs)
    → filter (λ r. not (has (id_of r) (map id_of (filter P rs)))) rs ≡ filter (λ r. not (P r)) rs
unfolding has
filter-ids_of_passing P [] n = refl
filter-ids_of_passing P (r ∷ rs) (new, n) =
    let other = not_has_of_Mem (id_of r) (map id_of rs) new in
    elim (Bool-cases (P r)) [
      | inl e ↦ ground (
        arith,
        filter_fresh_id (id_of r) (map id_of (filter P rs)) rs other,
        filter-ids_of_passing P rs n,
      )
      | inr e ↦ ground (arith, has-ids_none P (id_of r) rs other, filter-ids_of_passing P rs n)
    ]
