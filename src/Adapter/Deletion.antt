-- ===== src/Adapter/Deletion.antt =====
-- `from(table).delete()` against a collector that keeps its configuration tables as lists of rows:
-- what the builder's calls leave in the table is what a `DELETE … WHERE` would leave.
use jvm_scout.Base.{
  ℕ, ◌≡◌, Mem, All, All-Mem, All-of_Mem, refl, subst, sym, ap, ◌∙◌, arith, ◌∷◌, [], List, Option,
  none, some, true, not, Text, text_dec, text_discrete, map, filter, all, has, Nodup, if◌then◌else◌,
  ◌==◌, nat_dec,
}
use jvm_scout.Client.Values.{Row}
use jvm_scout.Client.Endpoints.{Endpoint}
use jvm_scout.Client.Http.{
  Platform, ClientState, Effect, response, parsed, ok, http, answer, need, ◌>>=◌, >>=-ok, pure,
}
use jvm_scout.Adapter.Query.{Query, Filter, passes, apply_filters}
use jvm_scout.Adapter.Ids.{
  Mem-ids_of_filter, Nodup-ids_of_filter, Mem-ids_of_others, filter-filter-ids, filter_all,
  filter-ids_of_passing,
}
use jvm_scout.Adapter.Store.{
  id_of, shortcut, config_list, config_delete, listed_ids, matching_config_ids, delete_all,
}
use jvm_scout.Adapter.Query.{Op, is_config}
use jvm_scout.Adapter.Run.{nothing, run_op, run, caught}

-- A collector whose world holds the rows of each configuration table: it lists them, and deletes the
-- rows with the given id from the named table alone. It answers 200 with the id for a row that is
-- there; what it answers for a missing one (404) is not used. The body of the reply is not read.
pub record IsTableStore {World : Type 0} (p : Platform World) (table_of : World → Text → List Row)
    : Type 0 where
  pub list_reply :
      (t : Text) (h : List (Text × Text)) (w : World)
      → (p.fetch (Endpoint.config_list t) h w).0 ≡ response 200 (parsed (table_of w t))
  pub list_keeps :
      (t u : Text) (h : List (Text × Text)) (w : World)
      → table_of (p.fetch (Endpoint.config_list t) h w).1 u ≡ table_of w u
  pub delete_reply :
      (t id : Text) (h : List (Text × Text)) (w : World)
      → Mem id (map id_of (table_of w t))
      → (p.fetch (Endpoint.config_delete t id) h w).0 ≡ response 200 (parsed tt)
  pub delete_removes :
      (t id u : Text) (h : List (Text × Text)) (w : World)
      → table_of (p.fetch (Endpoint.config_delete t id) h w).1 u
        ≡ (if t == u then filter (λ r. not (id_of r == id)) (table_of w u) else table_of w u)

module _ {World : Type 0} (p : Platform World) (table_of : World → Text → List Row)
    (store : IsTableStore p table_of) where
  abbrev pub rows_in : ClientState World → Text → List Row
  rows_in s t = table_of s.world t

  module _ (t id : Text) (s : ClientState World) where
    abbrev deleted : ClientState World
    deleted = (http p (Endpoint.config_delete t id) s).1

    delete_ok :
        Mem id (map id_of (rows_in s t)) → (http p (Endpoint.config_delete t id) s).0 ≡ ok (some tt)
    unfolding http answer
    delete_ok m = rw (store.delete_reply t id _ s.world m) (ground arith)

    config_delete_lem : Mem id (map id_of (rows_in s t)) → config_delete p t id s ≡ (ok tt, deleted)
    unfolding config_delete
    config_delete_lem m =
        >>=-ok (http p (Endpoint.config_delete t id)) (λ _. pure tt)
          (ap (λ r. (r, deleted)) (delete_ok m))

    rows_in-deleted :
        (u : Text)
        → rows_in deleted u
          ≡ (if t == u then filter (λ r. not (id_of r == id)) (rows_in s u) else rows_in s u)
    unfolding http
    rows_in-deleted u = store.delete_removes t id u _ s.world

  -- Ids that differ from the deleted one and were in the table still are.
  ids_stay :
      (t id : Text) (ids : List Text) (s : ClientState World)
      → ¬ Mem id ids
      → All (λ j. Mem j (map id_of (rows_in s t))) ids
      → All (λ j. Mem j (map id_of (rows_in (deleted t id s) t))) ids
  ids_stay t id ids s new there =
      let left : rows_in (deleted t id s) t ≡ filter (λ r. not (id_of r == id)) (rows_in s t) =
        ground (arith, rows_in-deleted t id s t) in
      All-of_Mem (λ j. Mem j (map id_of (rows_in (deleted t id s) t))) ids
        (λ j m.
          subst (λ rs. Mem j (map id_of rs)) (sym left)
            (Mem-ids_of_others id j (rows_in s t) (λ e. new (subst (λ i. Mem i ids) e m))
              (All-Mem (λ i. Mem i (map id_of (rows_in s t))) ids j there m)))

  -- Deleting different ids of the table one after another leaves the rows with other ids, and the
  -- other tables.
  delete_all_lem :
      (t : Text) (ids : List Text) (s : ClientState World)
      → Nodup ids
      → All (λ j. Mem j (map id_of (rows_in s t))) ids
      → (s' : ClientState World) × (delete_all p t ids s ≡ (ok tt, s'))
        × ((u : Text)
            → rows_in s' u ≡ (
                if t == u
                then filter (λ r. not (has (id_of r) ids)) (rows_in s u)
                else rows_in s u))
  unfolding delete_all
  delete_all_lem t [] s distinct there = (s, refl, λ u. ground (arith, filter_all (rows_in s u)))
  delete_all_lem t (id ∷ ids) s (new, distinct) (here, there) =
      let (s', done, left) =
        delete_all_lem t ids (deleted t id s) distinct (ids_stay t id ids s new there) in
      (
        s',
        >>=-ok (config_delete p t id) (λ _. delete_all p t ids) (config_delete_lem t id s here)
            ∙ done,
        λ u.
            left u
            ∙ (ground (arith, rows_in-deleted t id s u, filter-filter-ids id ids (rows_in s u))),
      )

  module _ (t : Text) (filters : List Filter) (s : ClientState World) where
    abbrev listed : ClientState World
    listed = (http p (Endpoint.config_list t) s).1

    list_ok : (http p (Endpoint.config_list t) s).0 ≡ ok (some (rows_in s t))
    unfolding http answer
    list_ok = rw (store.list_reply t _ s.world) (ground arith)

    listed_ids_lem :
        listed_ids p t filters s ≡ (ok (map id_of (apply_filters (rows_in s t) filters)), listed)
    unfolding listed_ids config_list
    listed_ids_lem =
        >>=-ok (http p (Endpoint.config_list t))
          (λ found. need found >>= λ rows. pure (map id_of (apply_filters rows filters)))
          (ap (λ r. (r, listed)) list_ok)

    matching_config_ids-listed :
        shortcut filters ≡ none
        → matching_config_ids p t filters s
          ≡ (ok (map id_of (apply_filters (rows_in s t) filters)), listed)
    unfolding matching_config_ids
    matching_config_ids-listed e = rw (e, matching_config_ids) listed_ids_lem

    rows_in-listed : (u : Text) → rows_in listed u ≡ rows_in s u
    unfolding http
    rows_in-listed u = store.list_keeps t u _ s.world

  module _ (number : Text → Option ℕ) (read_table : Text → List Filter → Effect World (List Row))
      (q : Query) (s : ClientState World) where
    run_op-delete :
        (ids : List Text) (s1 s2 : ClientState World)
        → is_config q.table ≡ true
        → matching_config_ids p q.table q.filters s ≡ (ok ids, s1)
        → delete_all p q.table ids s1 ≡ (ok tt, s2)
        → run_op p number read_table Op.delete q s ≡ (ok nothing, s2)
    unfolding run_op
    run_op-delete ids s1 s2 c m d = rw c (
        >>=-ok (matching_config_ids p q.table q.filters)
          (λ ids. delete_all p q.table ids >>= λ _. pure nothing) m
        ∙ >>=-ok (delete_all p q.table ids) (λ _. pure nothing) d)

    -- Against a collector that keeps its tables and confirms the deletion of a row that is there, a
    -- delete on a configuration table succeeds and removes
    -- from it exactly the rows that pass all filters, and the other tables stay; no two rows of the
    -- table share an id, and the filters are not a single test of the id.
    pub run-delete :
        q.op ≡ Op.delete
        → is_config q.table ≡ true
        → shortcut q.filters ≡ none
        → Nodup (map id_of (rows_in s q.table))
        → (s' : ClientState World) × (run p number read_table q s
            ≡ (record { value = nothing; error = none }, s'))
          × ((u : Text)
              → rows_in s' u ≡ (
                  if q.table == u
                  then filter (λ r. not (all (passes r) q.filters)) (rows_in s u)
                  else rows_in s u))
    unfolding run apply_filters
    run-delete op config listing distinct =
        let ids = map id_of (apply_filters (rows_in s q.table) q.filters) in
        let s1 = listed q.table q.filters s in
        let (s2, done, left) =
          delete_all_lem q.table ids s1
            (Nodup-ids_of_filter (λ r. all (passes r) q.filters) (rows_in s q.table) distinct)
            (All-of_Mem (λ j. Mem j (map id_of (rows_in s1 q.table))) ids
              (λ j m.
                subst (λ rs. Mem j (map id_of rs))
                  (sym (rows_in-listed q.table q.filters s q.table))
                  (Mem-ids_of_filter (λ r. all (passes r) q.filters) j (rows_in s q.table) m))) in
        let found = matching_config_ids-listed q.table q.filters s listing in
        (
          s2,
          subst
              (λ o.
                caught (run_op p number read_table o q s)
                ≡ (record { value = nothing; error = none }, s2))
              (sym op) (ap caught (run_op-delete ids s1 s2 config found done)),
          λ u. left u ∙ (elim (text_discrete q.table u) [
            | yes e ↦
                subst
                  (λ v.
                    (if q.table == v
                      then filter (λ r. not (has (id_of r) ids)) (rows_in s1 v)
                      else rows_in s1 v)
                    ≡ (if q.table == v
                        then filter (λ r. not (all (passes r) q.filters)) (rows_in s v)
                        else rows_in s v))
                  e
                  (ground (
                    arith,
                    rows_in-listed q.table q.filters s q.table,
                    filter-ids_of_passing (λ r. all (passes r) q.filters) (rows_in s q.table)
                        distinct,
                  ))
            | no n ↦ ground (arith, rows_in-listed q.table q.filters s u)
          ]),
        )
