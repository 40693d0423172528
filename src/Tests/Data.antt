-- ===== src/Tests/Data.antt =====
-- A concrete browser and collector, and rows for the witnesses.
use jvm_scout.Base.{
  arith, All, Lacks, ℕ, refl, ◌∷◌, [], List, Option, none, some, false, Text, codes, length, take,
  drop, has, has_of_Mem, map, filter, not, if◌then◌else◌, ◌==◌, text_dec,
}
use jvm_scout.Client.Rows.{ExceptionListRow, ts_of}
use jvm_scout.Client.Values.{Row, str}
use jvm_scout.Client.Endpoints.{Endpoint, Reply, Spelled, Frame, Detail}
use jvm_scout.Client.Http.{
  Platform, Cached, ClientState, Storage, Fetched, unreachable, response, parsed, empty,
}
use jvm_scout.Client.Cache.Paging.{IsServing}
use jvm_scout.Client.Applications.Laws.{IsNamed}
use jvm_scout.Adapter.Store.{id_of}
use jvm_scout.Adapter.Deletion.{IsTableStore}

abbrev pub row_of : ℕ → Text → Text → ℕ → ExceptionListRow
row_of id fingerprint received hits = record {
  id = id;
  received_at = received;
  timestamp = none;
  fingerprint = fingerprint;
  capture_mode = none;
  hit_count = hits;
  deployment_id = some (codes "shop");
  instance_id = none;
  exception_type = some (codes "java.lang.OutOfMemoryError");
  exception_message = none;
  caught = some false;
  class_name = some (codes "Cart");
  method_name = some (codes "add");
  line_number = some 7;
  source_file = none;
  thread_name = none;
}

-- Two rows share a fingerprint, one has none.
abbrev pub three_rows : List ExceptionListRow
three_rows =
    row_of 1 (codes "f") (codes "2024-02") 2
    ∷ row_of 2 (codes "") (codes "2024-03") 0
    ∷ row_of 3 (codes "f") (codes "2024-01") 4
    ∷ []

abbrev pub rule : Text → Text → Row
rule id name = (codes "id", str id) ∷ (codes "name", str name) ∷ []

abbrev pub two_rules : List Row
two_rules = rule (codes "r1") (codes "slow") ∷ rule (codes "r2") (codes "fatal") ∷ []

-- A field that the reply does not have.
abbrev absent : {A : Type 0} → Spelled A
absent = record { camel = none; snake = none }

abbrev pub one_frame : Frame
one_frame = record {
  frame_index = absent;
  class_name = record { camel = some (codes "Cart"); snake = none };
  method_name = record { camel = none; snake = some (codes "add") };
  source_file = absent;
  line_number = absent;
  is_app_code = absent;
  source_snippet = absent;
  local_variables = record {
    camel = some (
        record { name = some (codes "n"); type = none; signature = some (codes "I"); value = none }
        ∷ []);
    snake = none;
  };
}

abbrev pub one_detail : Detail
one_detail = record { stack_trace = record { camel = none; snake = some (one_frame ∷ []) } }

pub plain_five : Lacks 58 (codes "5")
plain_five = ((λ e. absurd (omega arith)), tt)

abbrev pub iso_of : ℕ → Text
iso_of n = codes "2024"

pub three-IsNamed : All (λ r. IsNamed (ts_of r)) three_rows
three-IsNamed = (refl, (refl, (refl, tt)))

-- No text is a number or a time.
abbrev pub no_number : Text → Option ℕ
no_number t = none

abbrev pub same : Text → Text
same t = t

-- The collector's configuration tables.
abbrev pub Tables : Type 0
Tables = Text → List Row

abbrev pub rows_of_table : Tables → Text → List Row
rows_of_table w t = w t

abbrev pub alert_rules : Tables
alert_rules t = if t == codes "alert_rules" then two_rules else []

abbrev pub serve_from : (e : Endpoint) → List (Text × Text) → Tables → Fetched (Reply e) × Tables
serve_from (Endpoint.exceptions limit offset) headers w = (
  response 200
      (parsed (record { items = take limit (drop offset three_rows); total = length three_rows })),
  w,
)
serve_from (Endpoint.exception_detail row_id) headers w = (response 200 (parsed one_detail), w)
serve_from Endpoint.jvm_instances headers w = (response 200 (parsed []), w)
serve_from Endpoint.stats headers w = (response 401 empty, w)
serve_from (Endpoint.config_list table) headers w = (response 200 (parsed (w table)), w)
serve_from (Endpoint.config_insert table row) headers w = (response 200 (parsed row), w)
serve_from (Endpoint.config_update table id patch) headers w = (response 200 (parsed patch), w)
serve_from (Endpoint.timeseries hours buckets environment) headers w =
    (response 200 (parsed none), w)
serve_from (Endpoint.event_series hours buckets environment) headers w =
    (response 200 (parsed (record { start = 0; bucket_ms = 1; series = none })), w)
serve_from (Endpoint.create_token request) headers w = (response 403 empty, w)
serve_from Endpoint.reset_data headers w = (response 403 empty, w)
serve_from (Endpoint.config_delete table id) headers w = (
  if has id (map id_of (w table)) then response 200 (parsed tt) else response 404 empty,
  λ u. if table == u then filter (λ r. not (id_of r == id)) (w u) else w u,
)

-- Its clock stands at 1000.
abbrev pub served : Platform Tables
served = record { fetch = serve_from; now = λ w. (1000, w); encode = λ t. t; encode_form = λ t. t }

pub served-IsServing : IsServing served three_rows
served-IsServing limit offset headers w = refl

pub served-IsTableStore : IsTableStore served rows_of_table
served-IsTableStore = record {
  list_reply = λ t h w. refl;
  list_keeps = λ t u h w. refl;
  delete_reply = λ t id h w m. rw (has_of_Mem id (map id_of (w t)) m) refl;
  delete_removes = λ t id u h w. refl;
}

-- A collector that is down.
abbrev pub down : Platform Tables
down = record {
  fetch = λ e headers w. (unreachable, w);
  now = λ w. (1000, w);
  encode = λ t. t;
  encode_form = λ t. t;
}

abbrev pub allowed : Storage
allowed = record { denied = false; entries = [] }

abbrev pub start : ClientState Tables
start = record { exc_cache = none; inst_cache = none; storage = allowed; world = alert_rules }

abbrev pub cached_at : ℕ → Cached (List ExceptionListRow)
cached_at t = record { at = t; rows = three_rows }

abbrev pub warm : ClientState Tables
warm = record start { exc_cache = some (cached_at 900) }
