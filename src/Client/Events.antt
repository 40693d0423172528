-- ===== src/Client/Events.antt =====
-- frontend/src/integrations/collector/client.ts: `deriveEvents` and `deriveSnapshots`, as functions
-- of the rows that `fetchAllExceptions` returns.
pub mod Summary
pub mod Laws
use jvm_scout.Base.{
  ℕ, ◌-◌, ◌∷◌, [], List, Option, none, some, map, length, get_elem?, sum_by, Text, codes, text_dec,
  show, sort_by, compare_text, if◌then◌else◌, ◌or_else◌,
}
use jvm_scout.Base.Maybe.{◌>>=◌, traverse}
use jvm_scout.Client.Groups.{group_from}
use jvm_scout.Client.Rows.{
  Severity, EventType, uncaught_exception, caught_exception, ExceptionListRow, is_uncaught,
  severity_for, location_for, ts_of, row_key, hits_of, app_id_of,
}

pub data Status : Type 0 where
  active resolved hidden : Status

pub record EventRow : Type 0 where
  pub id : Text
  pub type : EventType
  pub name : Text
  pub location : Text
  pub first_seen : Text
  pub last_seen : Text
  pub status : Status
  pub severity : Severity
  pub hit_count : ℕ
  pub application_id : Text
  pub introduced_by_deployment_id : Option Text

-- `g.map(tsOf).sort()`
abbrev pub times_of : List ExceptionListRow → List Text
times_of g = sort_by compare_text (map ts_of g)

abbrev pub type_of : ExceptionListRow → EventType
type_of rep = if is_uncaught rep.caught then uncaught_exception else caught_exception

-- The object pushed onto `events`, for the group `g` with the representative `rep`.
abbrev pub event_from : Text → List ExceptionListRow → ExceptionListRow → Text → Text → EventRow
event_from fp g rep first last = record {
  id = fp;
  type = type_of rep;
  name = rep.exception_type or_else codes "java.lang.Throwable";
  location = location_for rep;
  first_seen = first;
  last_seen = last;
  status = active;
  severity = severity_for rep;
  hit_count = sum_by hits_of g;
  application_id = app_id_of rep;
  introduced_by_deployment_id = none;
}

-- The event of one group. An empty group has no `g[0]`, and reading its fields throws: `none`.
unfoldable pub event_of : Text × List ExceptionListRow → Option EventRow
event_of (fp, g) = do
  rep ← get_elem? g 0
  first ← get_elem? (times_of g) 0
  last ← get_elem? (times_of g) (length (times_of g) - 1)
  some (event_from fp g rep first last)

-- `deriveEvents`, after the fetch. `none` is a thrown error.
unfoldable pub events_of : List ExceptionListRow → Option (List EventRow)
events_of rows = traverse event_of (group_from row_key [] rows)

pub record SnapshotRow : Type 0 where
  pub id : Text
  pub event_id : Text
  pub server_id : Option Text
  pub deployment_id : Option Text
  pub timestamp : Text
  pub thread_name : Option Text
  pub message : Option Text

-- `deriveSnapshots`, after the fetch.
abbrev pub snapshot_of : ExceptionListRow → SnapshotRow
snapshot_of r = record {
  id = show r.id;
  event_id = row_key r;
  server_id = r.instance_id;
  deployment_id = r.deployment_id;
  timestamp = ts_of r;
  thread_name = r.thread_name;
  message = r.exception_message;
}

unfoldable pub snapshots_of : List ExceptionListRow → List SnapshotRow
snapshots_of rows = map snapshot_of rows
