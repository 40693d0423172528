-- ===== src/Pages/Applications.antt =====
-- frontend/src/routes/_authenticated/applications.tsx: `computeAppHealth` and the cards of the page.
pub mod Cards
use jvm_scout.Base.{
  ℕ, zero, suc, ◌+◌, ◌∷◌, [], List, Option, none, some, Bool, true, false, ◌||◌, Comparator, Text,
  text_dec, map, filter, length, sum_by, lookup, includes, is_empty, sort_by, leb, if◌then◌else◌,
  ◌==◌,
}
use jvm_scout.Client.Endpoints.{FingerprintSeries}
use jvm_scout.Client.Events.{EventRow}
use jvm_scout.Client.Applications.{Environment, ApplicationRow}
use jvm_scout.Client.Servers.{active, dormant, offline, ServerRow}
use jvm_scout.Client.Series.{is_series_increasing}
use jvm_scout.Pages.Times.{
  same_environment, is_active, is_critical, is_error, severity_rank, then_by, by_number, descending,
  first_of, latest_first,
}

pub data AppHealth : Type 0 where
  healthy degraded at_risk : AppHealth

unfoldable pub compute_app_health : List EventRow → AppHealth
compute_app_health events =
    let shown = filter is_active events in
    let critical = length (filter is_critical shown) in
    let errors = length (filter is_error shown) in
    if leb 1 critical || leb 5 errors then at_risk else if leb 1 errors then degraded else healthy

pub data SortKey : Type 0 where
  health volume name : SortKey

-- The environment filter: `all` stands for the one chosen in the header.
pub data EnvFilter : Type 0 where
  all_environments : EnvFilter
  only : Environment → EnvFilter

pub record Card : Type 0 where
  pub app : ApplicationRow
  pub health : AppHealth
  pub active_count : ℕ
  pub server_count : ℕ
  pub offline_servers : ℕ
  pub total_hits : ℕ
  pub series : List ℕ
  pub trend_up : Bool
  pub window_hits : ℕ
  pub worst : Option EventRow

abbrev pub is_away : ServerRow → Bool
is_away s = elim s.status [ active ↦ false | dormant ↦ true | offline ↦ true ]

-- `for (let i = 0; i < b.length && i < 24; i++) buckets[i] += b[i];`
unfoldable pub add_buckets : List ℕ → List ℕ → List ℕ
add_buckets [] b = []
add_buckets (n ∷ buckets) [] = n ∷ buckets
add_buckets (n ∷ buckets) (m ∷ b) = (n + m) ∷ add_buckets buckets b

-- `new Array(n).fill(0)`
abbrev pub zeros : ℕ → List ℕ
zeros zero = []
zeros (suc n) = 0 ∷ zeros n

abbrev pub buckets_in : List (Text × FingerprintSeries) → EventRow → List ℕ
buckets_in series e = elim (lookup e.id series) [ none ↦ [] | some s ↦ s.buckets ]

-- The loop over the events of an application; an event without a series adds nothing.
unfoldable pub add_events : List (Text × FingerprintSeries) → List ℕ → List EventRow → List ℕ
add_events series buckets [] = buckets
add_events series buckets (e ∷ es) =
    add_events series (add_buckets buckets (buckets_in series e)) es

abbrev pub is_wanted : Environment → EnvFilter → ApplicationRow → Bool
is_wanted environment all_environments a = same_environment a.environment environment
is_wanted environment (only e) a = same_environment a.environment e

abbrev pub health_rank : AppHealth → ℕ
health_rank at_risk = 0
health_rank degraded = 1
health_rank healthy = 2

-- `lower` is `toLowerCase`, `locale` is `localeCompare`, and `time_of` is `getTime` of a text.
module _ (lower : Text → Text) (locale : Comparator Text) (time_of : Text → Option ℕ) where
  abbrev pub is_named_like : Text → Text → Bool
  is_named_like wanted title =
      if is_empty wanted then true else includes (lower wanted) (lower title)

  -- The most severe of the events, and of those the one that was seen last.
  unfoldable pub worst_of : List EventRow → Option EventRow
  worst_of es = first_of (
      sort_by
        (then_by (by_number (λ e. severity_rank e.severity))
          (latest_first (λ e. time_of e.last_seen)))
        es)

  unfoldable pub card_of :
      List EventRow → List ServerRow → List (Text × FingerprintSeries) → ApplicationRow → Card
  card_of events servers series app =
      let app_events = filter (λ e. e.application_id == app.id) events in
      let active_events = filter is_active app_events in
      let app_servers = filter (λ s. s.application_id == app.id) servers in
      let buckets = add_events series (zeros 24) app_events in
      record {
        app = app;
        health = compute_app_health app_events;
        active_count = length active_events;
        server_count = length app_servers;
        offline_servers = length (filter is_away app_servers);
        total_hits = sum_by (λ e. e.hit_count) active_events;
        series = buckets;
        trend_up = is_series_increasing (some buckets);
        window_hits = sum_by (λ n. n) buckets;
        worst = worst_of active_events;
      }

  unfoldable pub compare_cards : SortKey → Comparator Card
  compare_cards name a b = locale a.app.name b.app.name
  compare_cards volume a b = descending (by_number (λ c. c.total_hits)) a b
  compare_cards health a b =
      then_by (by_number (λ c. health_rank c.health)) (descending (by_number (λ c. c.total_hits))) a
        b

  unfoldable pub cards_of :
      Environment
      → EnvFilter
      → Text
      → SortKey
      → List ApplicationRow
      → List EventRow
      → List ServerRow
      → List (Text × FingerprintSeries)
      → List Card
  cards_of environment chosen wanted key applications events servers series =
      sort_by (compare_cards key) (
        map (card_of events servers series) (
          filter (λ a. is_named_like wanted a.name)
            (filter (is_wanted environment chosen) applications)))
