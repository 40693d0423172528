-- ===== src/Pages/Fetch.antt =====
-- The queries of the pages in frontend/src/routes/_authenticated, through the builder of
-- frontend/src/integrations/collector/adapter.ts. `run` does not reject, so a `Promise.all` of queries
-- runs them all; a page then throws the first error, or takes no rows for it.
use jvm_scout.Base.{ℕ, ◌∷◌, [], List, Option, none, some, Text, codes, map}
use jvm_scout.Client.Values.{Row, str}
use jvm_scout.Client.Http.{type_error, Platform, ClientState, Effect, Result, ok, err}
use jvm_scout.Adapter.Query.{Query, Filter}
use jvm_scout.Adapter.Builder.{from, select, eq}
use jvm_scout.Adapter.Run.{Data, rows, inserted, row, nothing, Outcome, run}

-- `supabase.from(table).select(...)`
abbrev pub select_from : Text → Query
select_from table = select (from table)

-- `data ?? []`, at the type of rows.
abbrev pub data_rows : Data → List Row
data_rows (rows rs) = rs
data_rows (inserted _) = []
data_rows (row _) = []
data_rows nothing = []

-- `if (x.error) throw x.error;` for one result after another, and the data.
unfoldable pub all_checked : List Outcome → Result (List (List Row))
all_checked [] = ok []
all_checked (o ∷ os) = elim o.error [
  | some e ↦ err e
  | none ↦ elim (all_checked os) [ ok rest ↦ ok (data_rows o.value ∷ rest) | err e ↦ err e ]
]

module _ {World : Type 0} (p : Platform World) (number : Text → Option ℕ)
    (read_table : Text → List Filter → Effect World (List Row)) where
  unfoldable pub answers : List Query → ClientState World → List Outcome × ClientState World
  answers [] s = ([], s)
  answers (q ∷ qs) s =
      let (o, s1) = run p number read_table q s in let (os, s2) = answers qs s1 in (o ∷ os, s2)

  abbrev pub fetch_checked : List Text → Effect World (List (List Row))
  fetch_checked tables s = let (os, s') = answers (map select_from tables) s in (all_checked os, s')

  abbrev pub fetch_unchecked : List Text → ClientState World → List (List Row) × ClientState World
  fetch_unchecked tables s =
      let (os, s') = answers (map select_from tables) s in (map (λ o. data_rows o.value) os, s')

  -- `fetchAll` of dashboard.tsx
  unfoldable pub dashboard_tables : Effect World (List (List Row))
  dashboard_tables =
      fetch_checked (codes "events" ∷ codes "applications" ∷ codes "deployments" ∷ [])

  -- `fetchAll` of events.tsx
  unfoldable pub events_tables : Effect World (List (List Row))
  events_tables = fetch_checked (
      codes "events"
      ∷ codes "applications"
      ∷ codes "deployments"
      ∷ codes "servers"
      ∷ codes "snapshots"
      ∷ [])

  -- `useDeploymentsData` of deployments.tsx
  unfoldable pub deployments_tables : ClientState World → List (List Row) × ClientState World
  deployments_tables =
      fetch_unchecked (codes "applications" ∷ codes "deployments" ∷ codes "events" ∷ [])

  -- The query of applications.tsx
  unfoldable pub applications_tables : ClientState World → List (List Row) × ClientState World
  applications_tables =
      fetch_unchecked (codes "applications" ∷ codes "events" ∷ codes "servers" ∷ [])

  -- The query of applications.$id.tsx
  unfoldable pub application_tables : ClientState World → List (List Row) × ClientState World
  application_tables =
      fetch_unchecked
        (codes "applications" ∷ codes "events" ∷ codes "servers" ∷ codes "deployments" ∷ [])

  -- The second query of deployments.$id.tsx; a deployment without its application throws.
  unfoldable pub deployment_extra : Text → Option Text → Effect World (List (List Row))
  deployment_extra id none s = (err type_error, s)
  deployment_extra id (some app_id) s =
      let (os, s') =
        answers
          (eq (codes "introduced_by_deployment_id") (str id) (select_from (codes "events"))
            ∷ eq (codes "application_id") (str app_id) (select_from (codes "servers"))
            ∷ [])
          s in
      (ok (map (λ o. data_rows o.value) os), s')
