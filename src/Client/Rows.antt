-- ===== src/Client/Rows.antt =====
-- frontend/src/integrations/collector/client.ts: the rows of the collector's exception list, and
-- what is read off a single row (`severityFor`, `locationFor`, `tsOf`, the grouping key).
use jvm_scout.Base.{
  ℕ, zero, suc, ◌++◌, [], Bool, true, false, ◌||◌, Option, none, some, Text, codes, is_empty, show,
  nat_dec, ends_with, includes, if◌then◌else◌, ◌or_else◌, ◌==◌,
}

pub data Severity : Type 0 where
  critical error warning info : Severity

pub data EventType : Type 0 where
  uncaught_exception caught_exception logged_error logged_warning http_error : EventType

pub record ExceptionListRow : Type 0 where
  pub id : ℕ
  pub received_at : Text
  pub timestamp : Option Text
  pub fingerprint : Text
  pub capture_mode : Option Text
  pub hit_count : ℕ
  pub deployment_id : Option Text
  pub instance_id : Option Text
  pub exception_type : Option Text
  pub exception_message : Option Text
  pub caught : Option Bool
  pub class_name : Option Text
  pub method_name : Option Text
  pub line_number : Option ℕ
  pub source_file : Option Text
  pub thread_name : Option Text

abbrev pub unknown_app : Text
unknown_app = codes "unknown"

-- `row.caught === false`
abbrev pub is_uncaught : Option Bool → Bool
is_uncaught (some false) = true
is_uncaught _ = false

-- `/Error$|OutOfMemory|StackOverflow/.test(name)`
unfoldable pub is_fatal_name : Text → Bool
is_fatal_name name =
    ends_with (codes "Error") name
    || includes (codes "OutOfMemory") name
    || includes (codes "StackOverflow") name

unfoldable pub severity_for : ExceptionListRow → Severity
severity_for row =
    if is_uncaught row.caught
    then if is_fatal_name (row.exception_type or_else []) then critical else error
    else warning

-- `:n`, and nothing for a line that is null or 0.
unfoldable pub line_suffix : Option ℕ → Text
line_suffix none = []
line_suffix (some zero) = []
line_suffix (some (suc n)) = codes ":" ++ show (suc n)

unfoldable pub location_for : ExceptionListRow → Text
location_for row =
    (row.class_name or_else codes "?")
    ++ (codes "." ++ ((row.method_name or_else codes "?") ++ line_suffix row.line_number))

abbrev pub ts_of : ExceptionListRow → Text
ts_of row = row.timestamp or_else row.received_at

-- `r.fingerprint || `id:${r.id}``
unfoldable pub row_key : ExceptionListRow → Text
row_key row = if is_empty row.fingerprint then codes "id:" ++ show row.id else row.fingerprint

-- `r.hit_count || 1`
abbrev pub hits_of : ExceptionListRow → ℕ
hits_of row = if row.hit_count == 0 then 1 else row.hit_count

-- `r.deployment_id ?? UNKNOWN_APP`
abbrev pub app_id_of : ExceptionListRow → Text
app_id_of row = row.deployment_id or_else unknown_app
