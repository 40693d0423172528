-- ===== src/Adapter/Tables.antt =====
-- frontend/src/integrations/collector/adapter.ts: `loadReadTable`. A derived row is an object, which the
-- builder reads by column name; here each is written out as its columns.
pub mod Laws
pub mod Frames
use jvm_scout.Base.{
  ℕ, ◌∷◌, [], ◌++◌, List, Option, none, some, Bool, map, find, Text, codes, text_dec, if◌then◌else◌,
  ◌==◌,
}
use jvm_scout.Client.Values.{Value, null, bool, num, str, Row, to_text}
use jvm_scout.Client.Rows.{
  Severity, critical, error, warning, info, EventType, uncaught_exception, caught_exception,
  logged_error, logged_warning, http_error,
}
use jvm_scout.Client.Http.{Platform, Effect, Error, message, type_error, pure, throw, ◌>>=◌}
use jvm_scout.Client.Promises.{all_of}
use jvm_scout.Client.Cache.{fetch_all_exceptions, default_cap}
use jvm_scout.Client.Events.{
  Status, active, resolved, hidden, EventRow, SnapshotRow, events_of, snapshots_of,
}
use jvm_scout.Client.Applications.{
  Environment, production, staging, development, ApplicationRow, DeploymentRow, derive_applications,
  derive_deployments,
}
use jvm_scout.Client.Servers.{ServerStatus, ServerRow, derive_servers}
use jvm_scout.Client.Servers
use jvm_scout.Client.Frames.{FrameRow, VariableRow, derive_stack_frames, derive_variables, joined}
use jvm_scout.Adapter.Query.{Filter, eq, one_of, col_of}

abbrev pub nullable : Option Text → Value
nullable none = null
nullable (some t) = str t

abbrev pub type_text : EventType → Text
type_text uncaught_exception = codes "uncaught_exception"
type_text caught_exception = codes "caught_exception"
type_text logged_error = codes "logged_error"
type_text logged_warning = codes "logged_warning"
type_text http_error = codes "http_error"

abbrev pub severity_text : Severity → Text
severity_text critical = codes "critical"
severity_text error = codes "error"
severity_text warning = codes "warning"
severity_text info = codes "info"

abbrev pub status_text : Status → Text
status_text active = codes "active"
status_text resolved = codes "resolved"
status_text hidden = codes "hidden"

abbrev pub environment_text : Environment → Text
environment_text production = codes "production"
environment_text staging = codes "staging"
environment_text development = codes "development"

abbrev pub server_status_text : ServerStatus → Text
server_status_text Servers.active = codes "active"
server_status_text Servers.dormant = codes "dormant"
server_status_text Servers.offline = codes "offline"

abbrev pub event_columns : EventRow → Row
event_columns e =
    (codes "id", str e.id)
    ∷ (codes "type", str (type_text e.type))
    ∷ (codes "name", str e.name)
    ∷ (codes "location", str e.location)
    ∷ (codes "first_seen", str e.first_seen)
    ∷ (codes "last_seen", str e.last_seen)
    ∷ (codes "status", str (status_text e.status))
    ∷ (codes "severity", str (severity_text e.severity))
    ∷ (codes "hit_count", num e.hit_count)
    ∷ (codes "application_id", str e.application_id)
    ∷ (codes "introduced_by_deployment_id", nullable e.introduced_by_deployment_id)
    ∷ []

abbrev pub snapshot_columns : SnapshotRow → Row
snapshot_columns s =
    (codes "id", str s.id)
    ∷ (codes "event_id", str s.event_id)
    ∷ (codes "server_id", nullable s.server_id)
    ∷ (codes "deployment_id", nullable s.deployment_id)
    ∷ (codes "timestamp", str s.timestamp)
    ∷ (codes "thread_name", nullable s.thread_name)
    ∷ (codes "message", nullable s.message)
    ∷ []

abbrev pub application_columns : ApplicationRow → Row
application_columns a =
    (codes "id", str a.id)
    ∷ (codes "name", str a.name)
    ∷ (codes "environment", str (environment_text a.environment))
    ∷ (codes "created_at", str a.created_at)
    ∷ []

abbrev pub deployment_columns : DeploymentRow → Row
deployment_columns d =
    (codes "id", str d.id)
    ∷ (codes "name", str d.name)
    ∷ (codes "application_id", str d.application_id)
    ∷ (codes "started_at", str d.started_at)
    ∷ []

abbrev pub server_columns : ServerRow → Row
server_columns s =
    (codes "id", str s.id)
    ∷ (codes "hostname", str s.hostname)
    ∷ (codes "application_id", str s.application_id)
    ∷ (codes "status", str (server_status_text s.status))
    ∷ (codes "agent_version", str s.agent_version)
    ∷ (codes "last_seen", str s.last_seen)
    ∷ []

abbrev pub frame_columns : FrameRow → Row
frame_columns f =
    (codes "id", str f.id)
    ∷ (codes "snapshot_id", str f.snapshot_id)
    ∷ (codes "frame_index", num f.frame_index)
    ∷ (codes "class_name", str f.class_name)
    ∷ (codes "method", str f.method)
    ∷ (codes "file", str f.file)
    ∷ (codes "line", num f.line)
    ∷ (codes "in_user_code", bool f.in_user_code)
    ∷ (codes "source_snippet", nullable f.source_snippet)
    ∷ []

abbrev pub variable_columns : VariableRow → Row
variable_columns v =
    (codes "id", str v.id)
    ∷ (codes "frame_id", str v.frame_id)
    ∷ (codes "name", str v.name)
    ∷ (codes "type", str v.type)
    ∷ (codes "value", nullable v.value)
    ∷ (codes "redacted", bool v.redacted)
    ∷ []

-- `filters.find((f) => f.col === col)`
abbrev pub filter_on : Text → List Filter → Option Filter
filter_on col filters = find (λ f. col_of f == col) filters

-- The ids of a filter: those of its list, whose type is `string[]`, or its value as a text.
abbrev pub ids_of : Filter → List Text
ids_of (eq col val) = to_text val ∷ []
ids_of (one_of col vals) = map to_text vals

module _ {World : Type 0} (p : Platform World) (iso : ℕ → Text) (time_of : Text → Option ℕ)
    (lower : Text → Text) where
  -- `deriveEvents`; the reading of a field of undefined throws.
  unfoldable pub derive_events : Effect World (List EventRow)
  derive_events = do
    rows ← fetch_all_exceptions p default_cap
    elim (events_of rows) [ none ↦ throw type_error | some es ↦ pure es ]

  unfoldable pub derive_snapshots : Effect World (List SnapshotRow)
  derive_snapshots = do rows ← fetch_all_exceptions p default_cap; pure (snapshots_of rows)

  unfoldable pub frames_on : Option Filter → Effect World (List Row)
  frames_on none = pure []
  frames_on (some f) = do
    found ← all_of (derive_stack_frames p) (ids_of f)
    pure (map frame_columns (joined found))

  unfoldable pub variables_on : Option Filter → Effect World (List Row)
  variables_on none = pure []
  variables_on (some f) = do
    found ← derive_variables p (ids_of f)
    pure (map variable_columns found)

  unfoldable pub load_read_table : Text → List Filter → Effect World (List Row)
  load_read_table table filters =
      if table == codes "events"
      then (do rows ← derive_events; pure (map event_columns rows))
      else if table == codes "snapshots"
      then (do rows ← derive_snapshots; pure (map snapshot_columns rows))
      else if table == codes "applications"
      then (do rows ← derive_applications p iso lower; pure (map application_columns rows))
      else if table == codes "deployments"
      then (do rows ← derive_deployments p iso lower; pure (map deployment_columns rows))
      else if table == codes "servers"
      then (do rows ← derive_servers p iso time_of; pure (map server_columns rows))
      else if table == codes "log_lines"
      then pure []
      else if table == codes "stack_frames"
      then frames_on (filter_on (codes "snapshot_id") filters)
      else if table == codes "variables"
      then variables_on (filter_on (codes "frame_id") filters)
      else throw (message (codes "unknown table: " ++ table))
