-- ===== src/Client/Events/Laws.antt =====
-- The rows that `deriveEvents` and `deriveSnapshots` make of the same exceptions.
use jvm_scout.Base.{
  ◌≡◌, refl, subst, sym, ◌∙◌, arith, ◌∷◌, [], List, some, true, inl, inr, map, sum_by, Text,
  text_dec, All, All-map, All-of_Mem, Mem, Nodup, has, has_of_Mem, Mem_of_has, Mem-map, Mem-set_of,
  set_of, set_of-Nodup, has-set_of, ◌==◌, Bool-cases,
}
use jvm_scout.Base.Maybe.{traverse}
use jvm_scout.Client.Groups.{group_from_lem, with_key, sum_by-groups}
use jvm_scout.Client.Rows.{ExceptionListRow, row_key, hits_of}
use jvm_scout.Client.Events.{EventRow, event_of, events_of, snapshot_of, snapshots_of}
use jvm_scout.Client.Events.Summary.{IsSummary, event_of_group}

-- One event for each distinct key, in order of first appearance, which sums up the key's rows.
pub record IsEventTable (rows : List ExceptionListRow) (es : List EventRow) : Type 0 where
  pub ids : map (λ e. e.id) es ≡ set_of (map row_key rows)
  pub sums : All (λ e. IsSummary e.id (with_key row_key e.id rows) e) es

with_key_of_has :
    (k : Text) (rows : List ExceptionListRow)
    → has k (map row_key rows) ≡ true
    → (r : ExceptionListRow) × (rs : List ExceptionListRow) × (with_key row_key k rows ≡ r ∷ rs)
unfolding has
with_key_of_has k [] h = cc
with_key_of_has k (x ∷ xs) h = elim (Bool-cases (row_key x == k)) [
  | inl e ↦ (x, with_key row_key k xs, rw e)
  | inr e ↦ (let (r, rs, found) = with_key_of_has k xs (ground arith) in (r, rs, rw e found))
]

module _ (rows : List ExceptionListRow) where
  abbrev table_of : List Text → List (Text × List ExceptionListRow)
  table_of ks = map (λ k. (k, with_key row_key k rows)) ks

  traverse-event_of :
      (ks : List Text)
      → All (λ k. has k (map row_key rows) ≡ true) ks
      → (es : List EventRow) × (traverse event_of (table_of ks) ≡ some es)
        × (map (λ e. e.id) es ≡ ks)
        × All (λ e. IsSummary e.id (with_key row_key e.id rows) e) es
  traverse-event_of [] h = ([], refl, refl, tt)
  traverse-event_of (k ∷ ks) (p, h) =
      let (r, rs, group) = with_key_of_has k rows p in
      let (e, made, summary) = event_of_group k r rs in
      let (es, rest, ids, sums) = traverse-event_of ks h in
      (
        e ∷ es,
        rw (group, made, rest) refl,
        cc (summary.id, ids),
        (
          subst (λ j. IsSummary j (with_key row_key j rows) e) (sym summary.id)
              (subst (λ g. IsSummary k g e) (sym group) summary),
          sums,
        ),
      )

  -- The derivation never fails. It yields one event for each distinct key of the rows, in order of
  -- first appearance; the event stands for all rows with its key, and is named by the exception
  -- of the first of them, `java.lang.Throwable` where that row names none.
  pub events_of_total : (es : List EventRow) × (events_of rows ≡ some es) × IsEventTable rows es
  unfolding events_of
  events_of_total =
      let (es, made, ids, sums) = traverse-event_of (set_of (map row_key rows)) (
        All-of_Mem (λ k. has k (map row_key rows) ≡ true) (set_of (map row_key rows))
          (λ k m. has_of_Mem k (map row_key rows) ((Mem-set_of k (map row_key rows)).0 m))) in
      (es, rw (group_from_lem row_key rows) made, record { ids = ids; sums = sums })

  sum_by-hit_count :
      (es : List EventRow)
      → All (λ e. IsSummary e.id (with_key row_key e.id rows) e) es
      → sum_by (λ e. e.hit_count) es
        ≡ sum_by (λ k. sum_by hits_of (with_key row_key k rows)) (map (λ e. e.id) es)
  sum_by-hit_count [] h = refl
  sum_by-hit_count (e ∷ es) (s, h) = omega (arith, s.hits, sum_by-hit_count es h)

  row_key-has :
      (r : ExceptionListRow) → Mem r rows → has (row_key r) (set_of (map row_key rows)) ≡ true
  row_key-has r m =
      has-set_of (row_key r) (map row_key rows)
      ∙ has_of_Mem (row_key r) (map row_key rows) (Mem-map row_key r rows m)

  module _ (es : List EventRow) (made : events_of rows ≡ some es) where
    pub events_of-IsEventTable : IsEventTable rows es
    events_of-IsEventTable =
        let (fs, made', table) = events_of_total in
        let same : fs ≡ es = cc (made, made') in subst (IsEventTable rows) same table

    -- No two events have the same id.
    pub events_of-Nodup : Nodup (map (λ e. e.id) es)
    events_of-Nodup = rw events_of-IsEventTable.ids (set_of-Nodup (map row_key rows))

    -- The events' hits add up to the rows' hits: no occurrence is lost or counted twice.
    pub events_of-hits : sum_by (λ e. e.hit_count) es ≡ sum_by hits_of rows
    events_of-hits =
        let ks = set_of (map row_key rows) in
        sum_by-hit_count es events_of-IsEventTable.sums
        ∙ (rw events_of-IsEventTable.ids (
            sum_by-groups row_key hits_of rows ks (set_of-Nodup (map row_key rows))
              (All-of_Mem (λ r. has (row_key r) ks ≡ true) rows row_key-has)))

    -- Every snapshot that `deriveSnapshots` makes of the same rows belongs to an event.
    pub snapshots_of-event_id : All (λ s. Mem s.event_id (map (λ e. e.id) es)) (snapshots_of rows)
    unfolding snapshots_of
    snapshots_of-event_id = All-map _ snapshot_of rows (
        rw events_of-IsEventTable.ids (
          All-of_Mem (λ r. Mem (row_key r) (set_of (map row_key rows))) rows
            (λ r m. Mem_of_has _ _ (row_key-has r m))))
