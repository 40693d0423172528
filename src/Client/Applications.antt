-- ===== src/Client/Applications.antt =====
-- frontend/src/integrations/collector/client.ts: `deriveApplications` and `deriveDeployments`.
pub mod Laws
use jvm_scout.Base.{
  ℕ, ◌∷◌, [], List, Option, none, some, Bool, true, ◌||◌, map, Text, codes, text_dec, is_empty,
  str_lt, lookup, insert, add, if◌then◌else◌, ◌==◌, ◌or_else◌,
}
use jvm_scout.Client.Rows.{ExceptionListRow, unknown_app, ts_of, app_id_of}
use jvm_scout.Client.Endpoints.{Instance, either}
use jvm_scout.Client.Http.{Platform, Effect, need, get_now, pure, ◌>>=◌}
use jvm_scout.Client.Promises.{together}
use jvm_scout.Client.Cache.{fetch_all_exceptions, fetch_instances, default_cap}

pub data Environment : Type 0 where
  production staging development : Environment

pub record ApplicationRow : Type 0 where
  pub id : Text
  pub name : Text
  pub environment : Environment
  pub created_at : Text

-- `normalizeEnvironment`, after `toLowerCase`.
unfoldable pub environment_named : Text → Environment
environment_named v =
    if v == codes "staging" || v == codes "stage" || v == codes "stg"
    then staging
    else if v == codes "development" || v == codes "dev" || v == codes "local"
    then development
    else production

-- The variables `ids` and `earliest` of the first loop.
pub record Seen : Type 0 where
  pub ids : List Text
  pub earliest : List (Text × Text)

-- `!earliest[id] || t < earliest[id]`
abbrev pub is_earlier : Text → Option Text → Bool
is_earlier t none = true
is_earlier t (some e) = is_empty e || str_lt t e

unfoldable pub see_row : Seen → ExceptionListRow → Seen
see_row s r = record {
  ids = add (app_id_of r) s.ids;
  earliest =
      if is_earlier (ts_of r) (lookup (app_id_of r) s.earliest)
      then insert (app_id_of r) (ts_of r) s.earliest
      else s.earliest;
}

unfoldable pub see_rows : Seen → List ExceptionListRow → Seen
see_rows s [] = s
see_rows s (r ∷ rs) = see_rows (see_row s r) rs

abbrev pub unseen : Seen
unseen = record { ids = []; earliest = [] }

abbrev pub app_id_of_instance : Instance → Text
app_id_of_instance i = either i.deployment_id or_else unknown_app

-- The variables `ids` and `envByApp` of the second loop. `lower` is `toLowerCase`.
pub record Known : Type 0 where
  pub ids : List Text
  pub environments : List (Text × Environment)

-- A missing or empty environment is not recorded.
abbrev pub record_environment :
    (Text → Text) → Text → Option Text → List (Text × Environment) → List (Text × Environment)
record_environment lower id none envs = envs
record_environment lower id (some raw) envs =
    if is_empty raw then envs else insert id (environment_named (lower raw)) envs

unfoldable pub know_instance : (Text → Text) → Known → Instance → Known
know_instance lower k i = record {
  ids = add (app_id_of_instance i) k.ids;
  environments = record_environment lower (app_id_of_instance i) i.environment k.environments;
}

unfoldable pub know_instances : (Text → Text) → Known → List Instance → Known
know_instances lower k [] = k
know_instances lower k (i ∷ is) = know_instances lower (know_instance lower k i) is

pub record DeploymentRow : Type 0 where
  pub id : Text
  pub name : Text
  pub application_id : Text
  pub started_at : Text

abbrev pub deployment_of : ApplicationRow → DeploymentRow
deployment_of a = record {
  id = a.id;
  name = a.id;
  application_id = a.id;
  started_at = a.created_at;
}

-- `iso` prints the clock as `new Date().toISOString()` does.
module _ {World : Type 0} (p : Platform World) (iso : ℕ → Text) (lower : Text → Text) where
  -- `earliest[id] ?? new Date().toISOString()`
  unfoldable pub created_at : Option Text → Effect World Text
  created_at (some t) = pure t
  created_at none = do now ← get_now p; pure (iso now)

  -- `Array.from(ids).map(...)`
  unfoldable pub application_rows :
      List (Text × Text)
      → List (Text × Environment)
      → List Text
      → Effect World (List ApplicationRow)
  application_rows earliest envs [] = pure []
  application_rows earliest envs (id ∷ ids) = do
    created ← created_at (lookup id earliest)
    rest ← application_rows earliest envs ids
    pure (
        record {
          id = id;
          name = id;
          environment = lookup id envs or_else production;
          created_at = created;
        }
        ∷ rest)

  -- `deriveApplications`, after the fetches.
  unfoldable pub applications_of :
      List ExceptionListRow → List Instance → Effect World (List ApplicationRow)
  applications_of rows instances =
      let seen = see_rows unseen rows in
      let known = know_instances lower (record { ids = seen.ids; environments = [] }) instances in
      application_rows seen.earliest known.environments known.ids

  unfoldable pub derive_applications : Effect World (List ApplicationRow)
  derive_applications = do
    found ← together (fetch_all_exceptions p default_cap) (fetch_instances p)
    instances ← need found.1
    applications_of found.0 instances

  unfoldable pub derive_deployments : Effect World (List DeploymentRow)
  derive_deployments = do apps ← derive_applications; pure (map deployment_of apps)
