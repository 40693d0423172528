-- ===== src/Client/Endpoints.antt =====
-- frontend/src/integrations/collector/client.ts: the collector's endpoints, as the client's calls
-- name them, and the type that the client gives to the JSON of each reply.
use jvm_scout.Base.{
  ℕ, ◌++◌, ◌∷◌, [], List, Option, none, some, Bool, Text, codes, show, is_empty, if◌then◌else◌,
}
use jvm_scout.Client.Rows.{ExceptionListRow}
use jvm_scout.Client.Values.{Row}

-- A field that the client reads in two spellings, `x.someName ?? x.some_name`.
pub record Spelled {ℓ} (A : Type ℓ) : Type ℓ where
  pub camel : Option A
  pub snake : Option A

abbrev pub either {ℓ} : {A : Type ℓ} → Spelled A → Option A
either s = elim s.camel [ none ↦ s.snake | some a ↦ some a ]

-- An element of `/jvm-instances`. The objects `hostInfo` and `agentConfig` are known by the one
-- field that the client reads of them.
pub record Instance : Type 0 where
  pub deployment_id : Spelled Text
  pub environment : Option Text
  pub instance_id : Spelled Text
  pub host_name : Spelled (Option Text)
  pub timestamp : Option Text
  pub received_at : Option Text
  pub agent_version : Spelled (Option Text)

pub record Local : Type 0 where
  pub name : Option Text
  pub type : Option Text
  pub signature : Option Text
  pub value : Option Text

pub record Frame : Type 0 where
  pub frame_index : Spelled ℕ
  pub class_name : Spelled Text
  pub method_name : Spelled Text
  pub source_file : Spelled Text
  pub line_number : Spelled ℕ
  pub is_app_code : Spelled Bool
  pub source_snippet : Spelled Text
  pub local_variables : Spelled (List Local)

pub record Detail : Type 0 where
  pub stack_trace : Spelled (List Frame)

-- `{ items, total }` of `/exceptions`
pub record Page : Type 0 where
  pub items : List ExceptionListRow
  pub total : ℕ

-- A bucket of `/stats/timeseries`
pub record TimeseriesBucket : Type 0 where
  pub t : ℕ
  pub caught : ℕ
  pub uncaught : ℕ

pub record FingerprintSeries : Type 0 where
  pub total : ℕ
  pub buckets : List ℕ

-- The reply of `/stats/event-series`; `series` is keyed by fingerprint, and may be missing.
pub record EventSeries (S : Type 0) : Type 0 where
  pub start : ℕ
  pub bucket_ms : ℕ
  pub series : S

pub record ApiToken : Type 0 where
  pub token : Text
  pub token_prefix : Text
  pub id : Text
  pub name : Text
  pub project_id : Text
  pub role : Text

-- The body of a request for a token; an empty project or role is left out.
pub record TokenRequest : Type 0 where
  pub name : Text
  pub project_id : Option Text
  pub role : Option Text

-- `deleted` of the reply, its only field.
pub record ResetDataResult : Type 0 where
  pub exceptions : ℕ
  pub instances : ℕ
  pub source_classes : ℕ

pub data Endpoint : Type 0 where
  exceptions : (limit offset : ℕ) → Endpoint
  exception_detail : (row_id : Text) → Endpoint
  jvm_instances stats : Endpoint
  config_list : (table : Text) → Endpoint
  config_insert : (table : Text) (row : Row) → Endpoint
  config_update : (table id : Text) (patch : Row) → Endpoint
  config_delete : (table id : Text) → Endpoint
  timeseries event_series : (hours buckets : ℕ) (environment : Option Text) → Endpoint
  create_token : TokenRequest → Endpoint
  reset_data : Endpoint

-- What `http<T>` is instantiated at. The reply of `/stats` and of a deletion is not read.
abbrev pub Reply : Endpoint → Type 0
Reply (exceptions limit offset) = Page
Reply (exception_detail row_id) = Detail
Reply jvm_instances = List Instance
Reply stats = Unit
Reply (config_list table) = List Row
Reply (config_insert table row) = Row
Reply (config_update table id patch) = Row
Reply (config_delete table id) = Unit
Reply (timeseries hours buckets environment) = Option (List TimeseriesBucket)
Reply (event_series hours buckets environment) =
    EventSeries (Option (List (Text × FingerprintSeries)))
Reply (create_token request) = ApiToken
Reply reset_data = ResetDataResult

-- `URLSearchParams` of a window of time: an empty environment is left out.
abbrev window_query : (Text → Text) → ℕ → ℕ → Option Text → Text
window_query encode_form hours buckets environment =
    codes "?hours="
    ++ (show hours
        ++ (codes "&buckets="
            ++ (show buckets ++ (elim environment [
              | none ↦ []
              | some e ↦ if is_empty e then [] else codes "&environment=" ++ encode_form e
            ]))))

-- The path of each call; `encode` is `encodeURIComponent`, and `encode_form` what `URLSearchParams`
-- makes of a value.
unfoldable pub path_of : (Text → Text) → (Text → Text) → Endpoint → Text
path_of encode form (exceptions limit offset) =
    codes "/exceptions?limit=" ++ (show limit ++ (codes "&offset=" ++ show offset))
path_of encode form (exception_detail row_id) = codes "/exceptions/" ++ row_id
path_of encode form jvm_instances = codes "/jvm-instances"
path_of encode form stats = codes "/stats"
path_of encode form (config_list table) = codes "/config/" ++ table
path_of encode form (config_insert table row) = codes "/config/" ++ table
path_of encode form (config_update table id patch) =
    codes "/config/" ++ (table ++ (codes "/" ++ encode id))
path_of encode form (config_delete table id) =
    codes "/config/" ++ (table ++ (codes "/" ++ encode id))
path_of encode form (timeseries hours buckets environment) =
    codes "/stats/timeseries" ++ window_query form hours buckets environment
path_of encode form (event_series hours buckets environment) =
    codes "/stats/event-series" ++ window_query form hours buckets environment
path_of encode form (create_token request) = codes "/tokens"
path_of encode form reset_data = codes "/admin/data?confirm=true"

pub data Method : Type 0 where
  get post patch delete : Method

abbrev pub method_of : Endpoint → Method
method_of (config_insert table row) = post
method_of (config_update table id p) = patch
method_of (config_delete table id) = delete
method_of (create_token request) = post
method_of reset_data = delete
method_of _ = get

abbrev json_content : List (Text × Text)
json_content = (codes "content-type", codes "application/json") ∷ []

-- `init.headers` of each call.
abbrev pub extra_headers : Endpoint → List (Text × Text)
extra_headers (config_insert table row) = json_content
extra_headers (config_update table id p) = json_content
extra_headers (create_token request) = json_content
extra_headers _ = []
