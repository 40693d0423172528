-- ===== src/Pages/Events/Rows.antt =====
-- frontend/src/routes/_authenticated/events.tsx: the rows of the page.
use jvm_scout.Base.{
  ℕ, ◌-◌, ◌*◌, ◌∷◌, [], List, Option, none, some, Bool, true, false, ◌&&◌, ◌||◌, not, Ordering,
  Comparator, Text, text_dec, nat_dec, is_empty, str_lt, includes, set_of, has, add, lookup, insert,
  filter, any, map, compare, flip_sign, sort_by, if◌then◌else◌, ◌==◌, ◌or_else◌,
}
use jvm_scout.Client.Endpoints.{FingerprintSeries}
use jvm_scout.Client.Events.{EventRow, SnapshotRow}
use jvm_scout.Client.Applications.{Environment, ApplicationRow, DeploymentRow}
use jvm_scout.Client.Series.{is_series_increasing}
use jvm_scout.Shell.{TimeRange}
use jvm_scout.Adapter.Tables.{type_text, severity_text, status_text}
use jvm_scout.Pages.Times.{same_environment, is_active, is_at_least, compare_times, index_by}
use jvm_scout.Pages.Events.Search.{
  no_chip, new, increasing, unresolved, SortField, last_seen, first_seen, hit_count, name,
  Direction, asc, desc, Search, csv_set, time_hours,
}

-- What the page has fetched, and the choices of the header.
pub record PageData : Type 0 where
  pub events : List EventRow
  pub apps : List ApplicationRow
  pub deployments : List DeploymentRow
  pub snapshots : List SnapshotRow
  pub series : List (Text × FingerprintSeries)
  pub environment : Environment
  pub time_range : TimeRange

abbrev pub started_at_of : List (Text × DeploymentRow) → Text → Text
started_at_of by_id id = elim (lookup id by_id) [ none ↦ [] | some d ↦ d.started_at ]

-- `!cur || d.started_at > (deploysById.get(cur)?.started_at ?? "")`
abbrev pub is_later : List (Text × DeploymentRow) → Option Text → DeploymentRow → Bool
is_later by_id none d = true
is_later by_id (some cur) d = is_empty cur || str_lt (started_at_of by_id cur) d.started_at

-- The loop of `latestDeployByApp`.
unfoldable pub latest_from :
    List (Text × DeploymentRow) → List (Text × Text) → List DeploymentRow → List (Text × Text)
latest_from by_id m [] = m
latest_from by_id m (d ∷ ds) =
    latest_from by_id
      (if is_later by_id (lookup d.application_id m) d then insert d.application_id d.id m else m)
      ds

unfoldable pub latest_deploy_by_app : List DeploymentRow → List (Text × Text)
latest_deploy_by_app deployments = latest_from (index_by (λ d. d.id) deployments) [] deployments

-- A server that is null is not asked for, and is left out.
abbrev pub with_server : Option Text → List Text → List Text
with_server none set = set
with_server (some id) set = add id set

-- The loop of `serversByEvent`.
unfoldable pub servers_from : List (Text × List Text) → List SnapshotRow → List (Text × List Text)
servers_from m [] = m
servers_from m (s ∷ ss) =
    servers_from (insert s.event_id (with_server s.server_id (lookup s.event_id m or_else [])) m) ss

abbrev pub servers_by_event : List SnapshotRow → List (Text × List Text)
servers_by_event snapshots = servers_from [] snapshots

abbrev pub env_apps : PageData → List ApplicationRow
env_apps d = filter (λ a. same_environment a.environment d.environment) d.apps

abbrev pub env_app_ids : PageData → List Text
env_app_ids d = set_of (map (λ a. a.id) (env_apps d))

abbrev pub none_chosen : List Text → Bool
none_chosen [] = true
none_chosen (x ∷ xs) = false

-- An empty set of values lets everything through.
abbrev pub is_among : List Text → Text → Bool
is_among set value = if none_chosen set then true else has value set

abbrev has_chosen_status : Search → EventRow → Bool
has_chosen_status s e =
    if none_chosen (csv_set s.status)
    then is_active e
    else has (status_text e.status) (csv_set s.status)

-- The second filter: the chip `unresolved`, then the chosen states, else active only.
unfoldable pub has_status : Search → EventRow → Bool
has_status s e = elim s.chip [
  | unresolved ↦ is_active e
  | no_chip ↦ has_chosen_status s e
  | new ↦ has_chosen_status s e
  | increasing ↦ has_chosen_status s e
]

unfoldable pub has_deployment : List Text → EventRow → Bool
has_deployment set e = if none_chosen set then true else elim e.introduced_by_deployment_id [
  | none ↦ false
  | some d ↦ not (is_empty d) && has d set
]

unfoldable pub has_server : List Text → List (Text × List Text) → EventRow → Bool
has_server set by_event e = if none_chosen set then true else elim (lookup e.id by_event) [
  | none ↦ false
  | some servers ↦ any (λ id. has id servers) set
]

abbrev pub buckets_of : List (Text × FingerprintSeries) → Text → Option (List ℕ)
buckets_of series id = elim (lookup id series) [ none ↦ none | some s ↦ some s.buckets ]

-- The filter of the chips.
unfoldable pub has_chip : PageData → Search → EventRow → Bool
has_chip d s e = elim s.chip [
  | new ↦ elim e.introduced_by_deployment_id [
    | none ↦ false
    | some by ↦
        not (is_empty by) && elim (lookup e.application_id (latest_deploy_by_app d.deployments)) [
          | none ↦ false
          | some latest ↦ latest == by
        ]
  ]
  | increasing ↦ is_series_increasing (buckets_of d.series e.id)
  | no_chip ↦ true
  | unresolved ↦ true
]

-- `lower` is `toLowerCase`, `locale` is `localeCompare`, and `time_of` is `getTime` of a text. The clock
-- reads later than the longest range, so that a cutoff of 0 stands for a custom range.
module _ (lower : Text → Text) (locale : Comparator Text) (time_of : Text → Option ℕ) where
  abbrev pub cutoff_at : ℕ → TimeRange → ℕ
  cutoff_at now range = elim (time_hours range) [ none ↦ 0 | some h ↦ now - h * 3600000 ]

  unfoldable pub is_recent : ℕ → EventRow → Bool
  is_recent cutoff e = if cutoff == 0 then true else is_at_least (time_of e.last_seen) cutoff

  unfoldable pub has_words : Text → EventRow → Bool
  has_words q e =
      if is_empty q
      then true
      else includes (lower q) (lower e.name) || includes (lower q) (lower e.location)

  abbrev pub directed : Direction → Ordering → Ordering
  directed asc o = o
  directed desc o = flip_sign o

  abbrev pub compare_field : SortField → Comparator EventRow
  compare_field name a b = locale a.name b.name
  compare_field hit_count a b = compare a.hit_count b.hit_count
  compare_field first_seen a b = compare_times (time_of a.first_seen) (time_of b.first_seen)
  compare_field last_seen a b = compare_times (time_of a.last_seen) (time_of b.last_seen)

  -- `rows`, at a time: one filter after another, and the sorting.
  unfoldable pub event_rows : ℕ → PageData → Search → List EventRow
  event_rows now d s =
      let a = filter (λ e. has e.application_id (env_app_ids d)) d.events in
      let b = filter (has_status s) a in
      let c = filter (λ e. is_among (csv_set s.type) (type_text e.type)) b in
      let f = filter (λ e. is_among (csv_set s.severity) (severity_text e.severity)) c in
      let g = filter (λ e. is_among (csv_set s.app) e.application_id) f in
      let h = filter (has_deployment (csv_set s.deployment)) g in
      let i = filter (has_server (csv_set s.server) (servers_by_event d.snapshots)) h in
      let j = filter (is_recent (cutoff_at now d.time_range)) i in
      let k = filter (has_words s.q) j in
      let l = filter (has_chip d s) k in
      sort_by (λ x y. directed s.dir (compare_field s.sort x y)) l
