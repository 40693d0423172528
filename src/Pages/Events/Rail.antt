-- ===== src/Pages/Events/Rail.antt =====
-- What frontend/src/routes/_authenticated/events.tsx offers beside its rows: the deployments and servers to
-- choose from, the chips, and the marks of a row.
use jvm_scout.Base.{
  List, none, some, Bool, true, false, ◌&&◌, not, text_dec, is_empty, has, filter, lookup,
  if◌then◌else◌, ◌==◌,
}
use jvm_scout.Client.Events.{EventRow}
use jvm_scout.Client.Applications.{DeploymentRow}
use jvm_scout.Client.Servers.{ServerRow}
use jvm_scout.Client.Series.{is_series_increasing}
use jvm_scout.Pages.Events.Search.{Chip, no_chip, new, increasing, unresolved, Search}
use jvm_scout.Pages.Events.Rows.{PageData, env_app_ids, latest_deploy_by_app, buckets_of}

-- `envDeployments`
unfoldable pub env_deployments : PageData → List DeploymentRow
env_deployments d = filter (λ x. has x.application_id (env_app_ids d)) d.deployments

-- `envServers`, of the servers that were fetched.
unfoldable pub env_servers : PageData → List ServerRow → List ServerRow
env_servers d servers = filter (λ x. has x.application_id (env_app_ids d)) servers

-- `search.chip === chip`
abbrev pub same_chip : Chip → Chip → Bool
same_chip no_chip no_chip = true
same_chip new new = true
same_chip increasing increasing = true
same_chip unresolved unresolved = true
same_chip _ _ = false

-- A click on a chip chooses it, or no chip if it was chosen.
unfoldable pub click_chip : Chip → Search → Search
click_chip chip s = record s { chip = if same_chip s.chip chip then no_chip else chip }

-- `isNew` of a row.
unfoldable pub is_new : PageData → EventRow → Bool
is_new d e = elim e.introduced_by_deployment_id [
  | none ↦ false
  | some by ↦
      not (is_empty by) && elim (lookup e.application_id (latest_deploy_by_app d.deployments)) [
        | none ↦ false
        | some latest ↦ latest == by
      ]
]

-- `climbing` of a row.
abbrev pub is_climbing : PageData → EventRow → Bool
is_climbing d e = is_series_increasing (buckets_of d.series e.id)
