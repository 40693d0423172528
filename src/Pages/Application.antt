-- ===== src/Pages/Application.antt =====
-- frontend/src/routes/_authenticated/applications.$id.tsx: the view of one application.
pub mod Outdated
use jvm_scout.Base.{
  ℕ, ◌-◌, ◌*◌, List, Option, none, some, Bool, true, false, Text, codes, text_dec, map, filter,
  find, take, is_lt, ◌||◌, length, get_elem?, sum_by, sort_by, ◌==◌, ◌or_else◌,
}
use jvm_scout.Client.Events.{EventRow}
use jvm_scout.Client.Applications.{ApplicationRow, DeploymentRow}
use jvm_scout.Client.Servers.{active, dormant, offline, ServerRow}
use jvm_scout.Shell.{TimeRange, hour, day, week, month, custom}
use jvm_scout.Pages.Times.{is_active, is_at_least, first_of, latest_first}
use jvm_scout.Pages.Deployments.{DeploymentDelta, compute_deltas}
use jvm_scout.Pages.Applications.{AppHealth, compute_app_health}
use jvm_scout.Pages.Versions.{compare_semver}

-- `RANGE_MS`
abbrev pub range_ms : TimeRange → ℕ
range_ms hour = 60 * 60 * 1000
range_ms day = 24 * 60 * 60 * 1000
range_ms week = 7 * 24 * 60 * 60 * 1000
range_ms month = 30 * 24 * 60 * 60 * 1000
range_ms custom = 24 * 60 * 60 * 1000

pub record ServerStats : Type 0 where
  pub total : ℕ
  pub active : ℕ
  pub dormant : ℕ
  pub offline : ℕ

pub record View : Type 0 where
  pub app : ApplicationRow
  pub events : List EventRow
  pub servers : List ServerRow
  pub latest_version : Text
  pub active : List EventRow
  pub total_hits : ℕ
  pub health : AppHealth
  pub deltas : List DeploymentDelta
  pub new_events : ℕ
  pub latest_deployment : Option DeploymentRow
  pub server_stats : ServerStats

abbrev is_up : ServerRow → Bool
is_up s = elim s.status [ active ↦ true | dormant ↦ false | offline ↦ false ]

abbrev is_dormant : ServerRow → Bool
is_dormant s = elim s.status [ active ↦ false | dormant ↦ true | offline ↦ false ]

abbrev is_offline : ServerRow → Bool
is_offline s = elim s.status [ active ↦ false | dormant ↦ false | offline ↦ true ]

unfoldable pub server_stats_of : List ServerRow → ServerStats
server_stats_of servers = record {
  total = length servers;
  active = length (filter is_up servers);
  dormant = length (filter is_dormant servers);
  offline = length (filter is_offline servers);
}

-- `.sort(compareSemver).at(-1) ?? "0.0.0"`
unfoldable pub latest_of : List Text → Text
latest_of versions =
    get_elem? (sort_by compare_semver versions) (length versions - 1) or_else codes "0.0.0"

-- `outdated` of a row of the servers' table, for the latest version.
unfoldable pub is_outdated : Text → ServerRow → Bool
is_outdated latest s = is_lt (compare_semver s.agent_version latest)

-- `isDown`
abbrev pub is_down : ServerRow → Bool
is_down s = is_offline s || is_dormant s

-- The rows of `EventsForApp`: at most 25 are shown, of the number in the heading.
unfoldable pub events_for_app : (Text → Option ℕ) → List EventRow → List EventRow
events_for_app time_of events =
    take 25 (sort_by (latest_first (λ e. time_of e.last_seen)) (filter is_active events))

-- The rows of `DeploymentsForApp`
unfoldable pub deployments_for_app : (Text → Option ℕ) → List DeploymentDelta → List DeploymentDelta
deployments_for_app time_of deltas =
    sort_by (latest_first (λ r. time_of r.deployment.started_at)) deltas

abbrev is_delta_of : Text → DeploymentDelta → Bool
is_delta_of id d = elim d.app [ none ↦ false | some a ↦ a.id == id ]

module _ (time_of : Text → Option ℕ) where
  -- The view of an application that was found, at a time.
  unfoldable pub view_for :
      ℕ
      → TimeRange
      → List ApplicationRow
      → List EventRow
      → List ServerRow
      → List DeploymentRow
      → Text
      → ApplicationRow
      → View
  view_for now range applications all_events all_servers deployments id app =
      let events = filter (λ e. e.application_id == id) all_events in
      let servers = filter (λ s. s.application_id == id) all_servers in
      let shown = filter is_active events in
      record {
        app = app;
        events = events;
        servers = servers;
        latest_version = latest_of (map (λ s. s.agent_version) all_servers);
        active = shown;
        total_hits = sum_by (λ e. e.hit_count) shown;
        health = compute_app_health events;
        deltas =
            filter (is_delta_of id) (compute_deltas time_of deployments applications all_events);
        new_events =
            length (filter (λ e. is_at_least (time_of e.first_seen) (now - range_ms range)) events);
        latest_deployment = first_of (
            sort_by (latest_first (λ d. time_of d.started_at))
              (filter (λ d. d.application_id == id) deployments));
        server_stats = server_stats_of servers;
      }

  -- `view`; none where the page was not found.
  unfoldable pub view_of :
      ℕ
      → TimeRange
      → List ApplicationRow
      → List EventRow
      → List ServerRow
      → List DeploymentRow
      → Text
      → Option View
  view_of now range applications events servers deployments id =
      elim (find (λ a. a.id == id) applications) [
        | none ↦ none
        | some app ↦ some (view_for now range applications events servers deployments id app)
      ]
