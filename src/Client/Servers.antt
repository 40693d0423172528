-- ===== src/Client/Servers.antt =====
-- frontend/src/integrations/collector/client.ts: `deriveServers`, and the calls whose replies are
-- handed on: `fetchTimeseries`, `fetchEventSeries`, `createApiToken` and `resetAllData`.
pub mod Laws
use jvm_scout.Base.{
  ℕ, ◌+◌, ◌*◌, ◌∷◌, [], List, Option, none, some, Text, codes, is_empty, ltb, if◌then◌else◌,
  ◌or_else◌,
}
use jvm_scout.Client.Rows.{unknown_app}
use jvm_scout.Client.Endpoints.{
  Endpoint, Instance, either, TimeseriesBucket, FingerprintSeries, EventSeries, ApiToken,
  TokenRequest, ResetDataResult,
}
use jvm_scout.Client.Http.{Platform, Effect, http, need, get_now, pure, ◌>>=◌}
use jvm_scout.Client.Cache.{fetch_instances}
use jvm_scout.Client.Applications.{app_id_of_instance}

pub data ServerStatus : Type 0 where
  active dormant offline : ServerStatus

pub record ServerRow : Type 0 where
  pub id : Text
  pub hostname : Text
  pub application_id : Text
  pub status : ServerStatus
  pub agent_version : Text
  pub last_seen : Text

-- The status by the age; the comparisons are false where the text is no date.
unfoldable pub status_at : ℕ → Option ℕ → ServerStatus
status_at now none = offline
status_at now (some seen) =
    if ltb now (seen + 5 * 60000)
    then active
    else if ltb now (seen + 60 * 60000)
    then dormant
    else offline

abbrev flat : {A : Type 0} → Option (Option A) → Option A
flat none = none
flat (some o) = o

-- `inst.timestamp ?? inst.receivedAt`
abbrev pub seen_of : Instance → Option Text
seen_of i = elim i.timestamp [ none ↦ i.received_at | some t ↦ some t ]

abbrev pub instance_id_of : Instance → Text
instance_id_of i = either i.instance_id or_else codes "unknown"

-- `iso` prints the clock as `new Date().toISOString()` does, and `time_of` is `getTime` of a text.
module _ {World : Type 0} (p : Platform World) (iso : ℕ → Text) (time_of : Text → Option ℕ) where
  abbrev pub server_of : ℕ → Instance → Text → ServerRow
  server_of now i last_seen = record {
    id = instance_id_of i;
    hostname = flat (either i.host_name) or_else instance_id_of i;
    application_id = app_id_of_instance i;
    status = status_at now (time_of last_seen);
    agent_version = flat (either i.agent_version) or_else codes "—";
    last_seen = last_seen;
  }

  unfoldable pub last_seen_of : Instance → Effect World Text
  last_seen_of i = elim (seen_of i) [ some t ↦ pure t | none ↦ do now ← get_now p; pure (iso now) ]

  unfoldable pub servers_of : ℕ → List Instance → Effect World (List ServerRow)
  servers_of now [] = pure []
  servers_of now (i ∷ is) = do
    seen ← last_seen_of i
    rest ← servers_of now is
    pure (server_of now i seen ∷ rest)

  unfoldable pub derive_servers : Effect World (List ServerRow)
  derive_servers = do
    fetched ← fetch_instances p
    now ← get_now p
    instances ← need fetched
    servers_of now instances

module _ {World : Type 0} (p : Platform World) where
  unfoldable pub fetch_timeseries : ℕ → ℕ → Option Text → Effect World (List TimeseriesBucket)
  fetch_timeseries hours buckets environment = do
    res ← http p (Endpoint.timeseries hours buckets environment)
    series ← need res
    pure (series or_else [])

  unfoldable pub fetch_event_series :
      ℕ → ℕ → Option Text → Effect World (EventSeries (List (Text × FingerprintSeries)))
  fetch_event_series hours buckets environment = do
    res ← http p (Endpoint.event_series hours buckets environment)
    found ← need res
    pure (record {
      start = found.start;
      bucket_ms = found.bucket_ms;
      series = found.series or_else [];
    })

  -- An empty project or role is left out.
  abbrev given : Option Text → Option Text
  given none = none
  given (some t) = if is_empty t then none else some t

  unfoldable pub create_api_token :
      Text → Option Text → Option Text → Effect World (Option ApiToken)
  create_api_token name project_id role = http p (
      Endpoint.create_token
        (record { name = name; project_id = given project_id; role = given role }))

  unfoldable pub reset_all_data : Effect World (Option ResetDataResult)
  reset_all_data = http p Endpoint.reset_data
