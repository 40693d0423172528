-- ===== src/Pages/EventDetail/Queries.antt =====
-- The queries of frontend/src/routes/_authenticated/events.$id.tsx: `useEvent`, `useSnapshots` and
-- `useSnapshotDetail`.
pub mod Shown
use jvm_scout.Base.{
  ℕ, ◌∷◌, [], List, Option, none, some, true, false, Text, codes, text_dec, map, set_of, lookup,
  is_empty, if◌then◌else◌,
}
use jvm_scout.Client.Values.{Value, str, Row, column}
use jvm_scout.Client.Http.{Platform, Effect, ClientState, ok, err, pure, ◌>>=◌}
use jvm_scout.Adapter.Query.{Query, Filter}
use jvm_scout.Adapter.Builder.{eq, in_list, order, single, maybe_single}
use jvm_scout.Adapter.Store.{id_of}
use jvm_scout.Adapter.Run.{Data, rows, row, nothing, Outcome, run}
use jvm_scout.Pages.Fetch.{select_from, data_rows}
use jvm_scout.Pages.Mutations.{perform}
use jvm_scout.Pages.Times.{index_by}

-- A text or null: the text, when it is neither null nor empty.
abbrev pub present : Value → Option Text
present (str t) = if is_empty t then none else some t
present _ = none

-- The column of the rows, `filter(Boolean)`.
abbrev pub present_in : Text → List Row → List Text
present_in col [] = []
present_in col (r ∷ rs) = elim (present (column col r)) [
  | none ↦ present_in col rs
  | some t ↦ t ∷ present_in col rs
]

-- `new Set(...)`
abbrev pub ids_in : Text → List Row → List Text
ids_in col snaps = set_of (present_in col snaps)

abbrev pub null_outcome : Outcome
null_outcome = record { value = nothing; error = none }

abbrev pub no_rows : Outcome
no_rows = record { value = rows []; error = none }

-- `data` of `single`, which is a row when there is no error.
abbrev pub single_row : Data → Row
single_row (row r) = r
single_row _ = []

pub record Detail : Type 0 where
  pub event : Row
  pub applications : Data
  pub introduced : Data

pub record Occurrence : Type 0 where
  pub snapshot : Row
  pub server : Option Row
  pub deployment : Option Row

-- The row with the id that stands in the column.
abbrev pub joined_row : Text → List Row → Row → Option Row
joined_row col table snap = elim (present (column col snap)) [
  | none ↦ none
  | some id ↦ lookup id (index_by id_of table)
]

abbrev pub occurrence_of : List Row → List Row → Row → Occurrence
occurrence_of servers deployments s = record {
  snapshot = s;
  server = joined_row (codes "server_id") servers s;
  deployment = joined_row (codes "deployment_id") deployments s;
}

pub record SnapshotDetail : Type 0 where
  pub frames : List Row
  pub logs : List Row
  pub variables : List Row

-- The results of two queries that run together; the first error is thrown.
abbrev pub both_checked :
    {World A : Type 0} → (Data → Data → A) → Outcome → Outcome → Effect World A
both_checked f a b s = elim a.error [
  | some e ↦ (err e, s)
  | none ↦ elim b.error [ some e ↦ (err e, s) | none ↦ (ok (f a.value b.value), s) ]
]

abbrev pub of_snapshot : Text → Text → Text → Query
of_snapshot snapshot_id table col =
    order col (some true) (eq (codes "snapshot_id") (str snapshot_id) (select_from table))

module _ {World : Type 0} (p : Platform World) (number : Text → Option ℕ)
    (read_table : Text → List Filter → Effect World (List Row)) where
  -- The row with the id of a column, no query when the column is null or empty.
  abbrev lookup_row : Text → Text → Row → ClientState World → Outcome × ClientState World
  lookup_row table col r s = elim (present (column col r)) [
    | none ↦ (null_outcome, s)
    | some id ↦
        run p number read_table (maybe_single (eq (codes "id") (str id) (select_from table))) s
  ]

  abbrev lookups : Row → Effect World Detail
  lookups ev s =
      let (app, s1) = lookup_row (codes "applications") (codes "application_id") ev s in
      let (dep, s2) =
        lookup_row (codes "deployments") (codes "introduced_by_deployment_id") ev s1 in
      both_checked (λ a d. record { event = ev; applications = a; introduced = d }) app dep s2

  -- `useEvent`
  unfoldable pub use_event : Text → Effect World Detail
  use_event id = do
    d ←
        perform p number read_table
          (single (eq (codes "id") (str id) (select_from (codes "events"))))
    lookups (single_row d)

  -- The rows with one of the ids, no query when there is none.
  abbrev rows_by_ids : Text → List Text → ClientState World → Outcome × ClientState World
  rows_by_ids table [] s = (no_rows, s)
  rows_by_ids table (id ∷ ids) s =
      run p number read_table (in_list (codes "id") (map str (id ∷ ids)) (select_from table)) s

  abbrev joined : List Row → Effect World (List Occurrence)
  joined snaps s =
      let (servers, s1) = rows_by_ids (codes "servers") (ids_in (codes "server_id") snaps) s in
      let (deploys, s2) =
        rows_by_ids (codes "deployments") (ids_in (codes "deployment_id") snaps) s1 in
      both_checked (λ a d. map (occurrence_of (data_rows a) (data_rows d)) snaps) servers deploys s2

  -- `useSnapshots`
  unfoldable pub use_snapshots : Text → Effect World (List Occurrence)
  use_snapshots event_id = do
    d ← perform p number read_table (
        order (codes "timestamp") (some false)
          (eq (codes "event_id") (str event_id) (select_from (codes "snapshots"))))
    joined (data_rows d)

  abbrev pub frames_and_logs : Text → Effect World (List Row × List Row)
  frames_and_logs snapshot_id s =
      let (frames, s1) =
        run p number read_table
          (of_snapshot snapshot_id (codes "stack_frames") (codes "frame_index")) s in
      let (logs, s2) =
        run p number read_table (of_snapshot snapshot_id (codes "log_lines") (codes "timestamp"))
          s1 in
      both_checked (λ f l. (data_rows f, data_rows l)) frames logs s2

  abbrev pub variables_for : List Row → Effect World (List Row)
  variables_for [] = pure []
  variables_for (f ∷ fs) = do
    d ← perform p number read_table (
        in_list (codes "frame_id") (map (column (codes "id")) (f ∷ fs))
          (select_from (codes "variables")))
    pure (data_rows d)

  -- `useSnapshotDetail`
  unfoldable pub use_snapshot_detail : Text → Effect World SnapshotDetail
  use_snapshot_detail snapshot_id = do
    both ← frames_and_logs snapshot_id
    variables ← variables_for both.0
    pure (record { frames = both.0; logs = both.1; variables = variables })
