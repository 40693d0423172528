-- ===== src/Pages/Settings.antt =====
-- frontend/src/routes/_authenticated/settings.tsx: what its tabs fetch and change.
pub mod Fleet
pub mod Install
pub mod Connections
pub mod Toggle
use jvm_scout.Base.{
  ℕ, ◌∷◌, [], ◌++◌, List, Option, none, some, Bool, true, false, ◌&&◌, not, Text, codes, text_dec,
  nat_dec, filter, find, trim, is_empty, length, if◌then◌else◌, ◌==◌,
}
use jvm_scout.Client.Values.{Value, undefined, null, object, bool, num, str, Row, column, strict_eq}
use jvm_scout.Client.Endpoints.{ApiToken, ResetDataResult}
use jvm_scout.Client.Http.{
  Platform, Effect, ClientState, Result, ok, err, Error, auth_error, need, pure, ◌>>=◌, ◌>>◌,
}
use jvm_scout.Client.Cache.{invalidate_cache}
use jvm_scout.Client.Servers.{create_api_token, reset_all_data}
use jvm_scout.Adapter.Query.{Filter}
use jvm_scout.Adapter.Store.{id_of}
use jvm_scout.Adapter.Run.{Outcome}
use jvm_scout.Pages.Fetch.{fetch_checked, data_rows}
use jvm_scout.Pages.Mutations.{list_rows, list_ordered, update_by_id, delete_by_id, insert_row}

-- JavaScript's truth of a value.
abbrev pub is_truthy : Value → Bool
is_truthy undefined = false
is_truthy null = false
is_truthy object = true
is_truthy (bool b) = b
is_truthy (num n) = not (n == 0)
is_truthy (str t) = not (is_empty t)

-- `v ?? "ingest"`
abbrev or_ingest : Value → Value
or_ingest undefined = str (codes "ingest")
or_ingest null = str (codes "ingest")
or_ingest v = v

-- An ingest token that has not been revoked.
unfoldable pub is_ingest_token : Row → Bool
is_ingest_token t =
    strict_eq (or_ingest (column (codes "role") t)) (str (codes "ingest"))
    && not (is_truthy (column (codes "revoked_at") t))

-- `trim() || "default"`
abbrev pub project_or_default : Text → Text
project_or_default project = if is_empty (trim project) then codes "default" else trim project

abbrev pub has_type : Text → Row → Bool
has_type type r = strict_eq (column (codes "type") r) (str type)

abbrev pub connection_text : Bool → Text
connection_text true = codes "connected"
connection_text false = codes "disconnected"

abbrev pub has_kind : Text → Row → Bool
has_kind kind r = strict_eq (column (codes "kind") r) (str kind)

unfoldable pub patterns : List Row → List Row
patterns rules = filter (has_kind (codes "pattern")) rules

unfoldable pub identifiers : List Row → List Row
identifiers rules = filter (has_kind (codes "identifier")) rules

-- The draft of a redaction rule.
pub record Draft : Type 0 where
  pub kind : Text
  pub name : Text
  pub value : Text

abbrev pub redaction_rule : Draft → Row
redaction_rule d =
    (codes "kind", str d.kind)
    ∷ (codes "name", str d.name)
    ∷ (codes "value", str d.value)
    ∷ (codes "enabled", bool true)
    ∷ []

-- The token's raw value; a reply without a body has none to read.
abbrev pub raw_token : {World : Type 0} → Option ApiToken → Effect World Text
raw_token made = do t ← need made; pure t.token

-- The events and the agents that a reset clears.
pub record Counts : Type 0 where
  pub events : ℕ
  pub servers : ℕ

abbrev pub counts_of : List (List Row) → Counts
counts_of (events ∷ servers ∷ rest) = record { events = length events; servers = length servers }
counts_of _ = record { events = 0; servers = 0 }

-- The message after a reset that failed.
abbrev pub reset_message : (message_of : Error → Text) → Error → Text
reset_message message_of auth_error =
    codes "Your API key is not authorized to delete data (admin role required)."
reset_message message_of e = message_of e

-- Whether the button that deletes is enabled.
abbrev pub may_reset : Text → Bool → Bool
may_reset confirm_text is_pending = confirm_text == codes "DELETE" && not is_pending

-- `onSuccess` of the reset: a reply without a body throws before the caches are dropped.
abbrev pub after_reset : {World : Type 0} → Option ResetDataResult → Effect World ResetDataResult
after_reset res s = elim res [ none ↦ need none s | some d ↦ (ok d, invalidate_cache s) ]

module _ {World : Type 0} (p : Platform World) (number : Text → Option ℕ)
    (read_table : Text → List Filter → Effect World (List Row)) where
  -- The first tab: tokens and the key that is minted.
  unfoldable pub ingest_tokens : Effect World (List Row)
  ingest_tokens = do
    tokens ← list_ordered p number read_table (codes "api_tokens") (codes "created_at") false
    pure (filter is_ingest_token tokens)

  unfoldable pub generate_key : Text → Effect World Text
  generate_key project = do
    made ←
        create_api_token p (codes "agent-" ++ project_or_default project)
          (some (project_or_default project)) (some (codes "ingest"))
    raw_token made

  unfoldable pub integrations : Effect World (List Row)
  integrations = list_rows p number read_table (codes "integrations")

  -- The change of the row of a type, or a new row where there is none.
  abbrev pub toggle_row : Text → Bool → Option Row → Effect World (Unit {0})
  toggle_row type connect (some existing) =
      update_by_id p number read_table (codes "integrations")
        ((codes "status", str (connection_text connect)) ∷ []) (id_of existing)
  toggle_row type connect none = insert_row p number read_table (codes "integrations") (
      (codes "type", str type)
      ∷ (codes "status", str (connection_text connect))
      ∷ (codes "config", object)
      ∷ [])

  -- `toggle` of the integrations, of the rows that are loaded.
  unfoldable pub toggle_integration : List Row → Text → Bool → Effect World (Unit {0})
  toggle_integration loaded type connect = toggle_row type connect (find (has_type type) loaded)

  unfoldable pub redaction_rules : Effect World (List Row)
  redaction_rules =
      list_ordered p number read_table (codes "redaction_rules") (codes "created_at") true

  unfoldable pub toggle_redaction : Text → Bool → Effect World (Unit {0})
  toggle_redaction id enabled =
      update_by_id p number read_table (codes "redaction_rules")
        ((codes "enabled", bool enabled) ∷ []) id

  unfoldable pub remove_redaction : Text → Effect World (Unit {0})
  remove_redaction id = delete_by_id p number read_table (codes "redaction_rules") id

  unfoldable pub create_redaction : Draft → Effect World (Unit {0})
  create_redaction draft =
      insert_row p number read_table (codes "redaction_rules") (redaction_rule draft)

  unfoldable pub api_tokens : Effect World (List Row)
  api_tokens = list_ordered p number read_table (codes "api_tokens") (codes "created_at") false

  unfoldable pub generate_token : (name project role : Text) → Effect World Text
  generate_token name project role = do
    made ←
        create_api_token p (if is_empty name then codes "Untitled token" else name)
          (some (project_or_default project)) (some role)
    raw_token made

  -- `now` is the present time as a text.
  unfoldable pub revoke_token : (now id : Text) → Effect World (Unit {0})
  revoke_token now id =
      update_by_id p number read_table (codes "api_tokens") ((codes "revoked_at", str now) ∷ []) id

  unfoldable pub team_members : Effect World (List Row)
  team_members = list_ordered p number read_table (codes "team_members") (codes "created_at") true

  unfoldable pub invite : (email role : Text) → Effect World (Unit {0})
  invite email role = insert_row p number read_table (codes "team_members") (
      (codes "email", str email)
      ∷ (codes "role", str role)
      ∷ (codes "status", str (codes "invited"))
      ∷ [])

  unfoldable pub change_role : (id role : Text) → Effect World (Unit {0})
  change_role id role =
      update_by_id p number read_table (codes "team_members") ((codes "role", str role) ∷ []) id

  unfoldable pub remove_member : Text → Effect World (Unit {0})
  remove_member id = delete_by_id p number read_table (codes "team_members") id

  unfoldable pub admin_counts : Effect World Counts
  admin_counts = do
    tables ← fetch_checked p number read_table (codes "events" ∷ codes "servers" ∷ [])
    pure (counts_of tables)

  unfoldable pub reset : Effect World ResetDataResult
  reset = do res ← reset_all_data p; after_reset res
