-- ===== src/Pages/Dashboard.antt =====
-- frontend/src/routes/_authenticated/dashboard.tsx: what the dashboard computes for a window of time.
pub mod Regressions
use jvm_scout.Base.{
  ℕ, ◌+◌, ◌-◌, ◌*◌, ◌/◌, max, ◌∷◌, [], ◌++◌, List, Option, none, some, Bool, true, false, ◌&&◌,
  ◌||◌, Comparator, compare, Text, codes, text_dec, nat_dec, show, set_of, has, lookup, insert, map,
  filter, take, length, sum_by, sort_by, values, ltb, leb, if◌then◌else◌, ◌==◌,
}
use jvm_scout.Base.Int.{ℤ, pos, negsuc}
use jvm_scout.Client.Endpoints.{TimeseriesBucket, FingerprintSeries}
use jvm_scout.Client.Rows.{Severity}
use jvm_scout.Client.Events.{EventRow}
use jvm_scout.Client.Applications.{Environment, ApplicationRow, DeploymentRow}
use jvm_scout.Client.Series.{is_series_increasing}
use jvm_scout.Shell.{TimeRange, hour, day, week, month, custom}
use jvm_scout.Pages.Times.{
  same_environment, is_active, is_critical, is_at_least, index_from, index_by, severity_rank,
  by_number, descending, first_of,
}
use jvm_scout.Pages.Deployments.{is_introduced_by}

-- `TIME_HOURS`
abbrev pub hours_of : TimeRange → ℕ
hours_of hour = 1
hours_of day = 24
hours_of week = 24 * 7
hours_of month = 24 * 30
hours_of custom = 24

-- `bucketCount`
abbrev pub bucket_count : ℕ → ℕ
bucket_count hours =
    if leb hours 1 then 12 else if leb hours 24 then 24 else if leb hours (24 * 7) then 28 else 30

-- What has been fetched, and the environment of the header.
pub record DashboardData : Type 0 where
  pub events : List EventRow
  pub apps : List ApplicationRow
  pub deployments : List DeploymentRow
  pub series : List (Text × FingerprintSeries)
  pub environment : Environment

-- `eventSeries[e.id]?.total ?? 0`
abbrev pub hits_in_period : List (Text × FingerprintSeries) → EventRow → ℕ
hits_in_period series e = elim (lookup e.id series) [ none ↦ 0 | some s ↦ s.total ]

abbrev pub spark_for : List (Text × FingerprintSeries) → EventRow → Option (List ℕ)
spark_for series e = elim (lookup e.id series) [ none ↦ none | some s ↦ some s.buckets ]

abbrev pub trend_up_for : List (Text × FingerprintSeries) → EventRow → Bool
trend_up_for series e = is_series_increasing (spark_for series e)

unfoldable pub env_apps : DashboardData → List ApplicationRow
env_apps d = filter (λ a. same_environment a.environment d.environment) d.apps

abbrev pub env_app_ids : DashboardData → List Text
env_app_ids d = set_of (map (λ a. a.id) (env_apps d))

unfoldable pub env_events : DashboardData → List EventRow
env_events d = filter (λ e. has e.application_id (env_app_ids d) && is_active e) d.events

-- The events that occurred in the window.
unfoldable pub period_events : DashboardData → List EventRow
period_events d = filter (λ e. ltb 0 (hits_in_period d.series e)) (env_events d)

unfoldable pub total_hits : DashboardData → ℕ
total_hits d = sum_by (hits_in_period d.series) (period_events d)

unfoldable pub increasing_events : DashboardData → List EventRow
increasing_events d = filter (trend_up_for d.series) (period_events d)

-- `Math.max(0, Math.min(100, n))`
abbrev pub clamp : ℤ → ℕ
clamp (pos n) = if leb n 100 then n else 100
clamp (negsuc n) = 0

-- `chartTotal`
unfoldable pub chart_total : List TimeseriesBucket → ℕ
chart_total series = sum_by (λ b. b.caught + b.uncaught) series

pub record ChartPoint : Type 0 where
  pub label : Text
  pub uncaught_exception : ℕ
  pub caught_exception : ℕ

-- `s.padStart(2, "0")`
abbrev pad2 : Text → Text
pad2 [] = codes "00"
pad2 (c ∷ []) = codes "0" ++ c ∷ []
pad2 (c ∷ d ∷ s) = c ∷ d ∷ s

-- The parts of a local date: `getMinutes`, `getHours`, `getMonth` and `getDate`.
pub record LocalDate : Type 0 where
  pub minutes : ℕ
  pub hours : ℕ
  pub month : ℕ
  pub date : ℕ

unfoldable pub format_bucket_label : LocalDate → ℕ → Text
format_bucket_label d hours =
    if leb hours 1
    then pad2 (show d.minutes) ++ codes "m"
    else if leb hours 24
    then pad2 (show d.hours) ++ codes ":00"
    else show (d.month + 1) ++ (codes "/" ++ show d.date)

-- `chart`; `local` takes a time apart.
unfoldable pub chart_of : (ℕ → LocalDate) → ℕ → List TimeseriesBucket → List ChartPoint
chart_of local hours series =
    map
      (λ b. record {
        label = format_bucket_label (local b.t) hours;
        uncaught_exception = b.uncaught;
        caught_exception = b.caught;
      })
      series

pub data Light : Type 0 where
  green amber red : Light

pub record AppStatus : Type 0 where
  pub app : ApplicationRow
  pub count : ℕ
  pub worst : Option EventRow
  pub health : Light

unfoldable pub app_status_of : List EventRow → ApplicationRow → AppStatus
app_status_of events app =
    let app_events = filter (λ e. e.application_id == app.id) events in
    let count = length app_events in
    record {
      app = app;
      count = count;
      worst = first_of (sort_by (by_number (λ e. severity_rank e.severity)) app_events);
      health =
          if ltb 0 (length (filter is_critical app_events)) || leb 6 count
          then red
          else if leb 2 count
          then amber
          else green;
    }

-- `appHealth`
unfoldable pub app_health : DashboardData → List AppStatus
app_health d = map (app_status_of (period_events d)) (env_apps d)

pub record RecentDeployment : Type 0 where
  pub d : DeploymentRow
  pub delta : ℕ
  pub introduced : List EventRow

abbrev pub recent_of : List EventRow → DeploymentRow → RecentDeployment
recent_of events d = record {
  d = d;
  delta = length (filter (is_introduced_by d.id) events);
  introduced = filter (is_introduced_by d.id) events;
}

abbrev pub most_hits_first : List (Text × FingerprintSeries) → Comparator EventRow
most_hits_first series = descending (by_number (hits_in_period series))

unfoldable pub top_events : DashboardData → List EventRow
top_events d = take 6 (sort_by (most_hits_first d.series) (period_events d))

-- `locale` is `localeCompare`, and `time_of` is `getTime` of a text.
module _ (locale : Comparator Text) (time_of : Text → Option ℕ) where
  unfoldable pub new_events : ℕ → DashboardData → List EventRow
  new_events cutoff d = filter (λ e. is_at_least (time_of e.first_seen) cutoff) (period_events d)

  -- `score n i p` is `Math.round(100 - (n * 4 + i * 2) / p * 30)`, in floating point.
  unfoldable pub reliability : (score : ℕ → ℕ → ℕ → ℤ) → ℕ → DashboardData → ℕ
  reliability score cutoff d =
      let count = length (period_events d) in
      if count == 0
      then 100
      else clamp (score (length (new_events cutoff d)) (length (increasing_events d)) (max 1 count))

  -- `newAndIncreasing`: a map by id, the most hits first, at most eight.
  unfoldable pub new_and_increasing : ℕ → DashboardData → List EventRow
  new_and_increasing cutoff d = take 8 (
      sort_by (most_hits_first d.series) (
        values (
          index_from (λ e. e.id) (index_by (λ e. e.id) (new_events cutoff d))
            (increasing_events d))))

  unfoldable pub recent_deployments : DashboardData → List RecentDeployment
  recent_deployments d = map (recent_of (env_events d)) (
      take 6 (
        sort_by (λ a b. locale b.started_at a.started_at)
          (filter (λ x. has x.application_id (env_app_ids d)) d.deployments)))
