-- ===== src/Tests/Events.antt =====
-- The theorems about the lists of events, on their page and the dashboard, at concrete inputs.
use jvm_scout.Base.{
  ◌≤◌, ◌≡◌, refl, ◌↔◌, arith, [], ◌∷◌, List, none, not, Text, codes, text_dec, compare_text, has,
  map, take, length, All, Mem, Nodup, if◌then◌else◌, ◌==◌,
}
use jvm_scout.Client.Rows.{critical, uncaught_exception}
use jvm_scout.Client.Endpoints.{FingerprintSeries}
use jvm_scout.Client.Cache.{default_cap}
use jvm_scout.Client.Events.{EventRow, active}
use jvm_scout.Client.Events.Laws.{IsEventTable}
use jvm_scout.Client.Applications.{production, ApplicationRow}
use jvm_scout.Adapter.Query.{Query}
use jvm_scout.Adapter.Builder.{from}
use jvm_scout.Adapter.Run.{rows, selected, run}
use jvm_scout.Adapter.Tables.{event_columns, load_read_table}
use jvm_scout.Adapter.Tables.Laws.{run-events}
use jvm_scout.Shell.{day}
use jvm_scout.Pages.Events.Search.{no_chip, last_seen, desc, Search, csv_set, toggle_csv}
use jvm_scout.Pages.Events.Rows.{PageData, event_rows}
use jvm_scout.Pages.Events.Shown.{IsShown, Mem-event_rows}
use jvm_scout.Pages.Events.Csv.{IsValue, csv_set-toggle_csv}
use jvm_scout.Pages.Dashboard.{DashboardData, new_and_increasing}
use jvm_scout.Pages.Dashboard.Regressions.{IsListed, IsFalling, new_and_increasing_lem}
use jvm_scout.Tests.Data.{no_number, same, served, served-IsServing, start, three_rows, iso_of}

abbrev all_events : Query
all_events = from (codes "events")

run-events_example :
    (es : List EventRow) × IsEventTable (take default_cap three_rows) es
    × ((run served no_number (load_read_table served iso_of no_number same) all_events start).0
        ≡ record {
          value = rows (selected no_number all_events (map event_columns es));
          error = none;
        })
unfolding from
run-events_example =
    run-events served iso_of no_number same no_number three_rows served-IsServing start refl
      all_events refl refl refl

abbrev oom : EventRow
oom = record {
  id = codes "e1";
  type = uncaught_exception;
  name = codes "OutOfMemoryError";
  location = codes "Cart.add";
  first_seen = codes "2024-01";
  last_seen = codes "2024-02";
  status = active;
  severity = critical;
  hit_count = 3;
  application_id = codes "shop";
  introduced_by_deployment_id = none;
}

abbrev shop : ApplicationRow
shop = record { id = codes "shop"; name = codes "Shop"; environment = production; created_at = [] }

abbrev oom_series : List (Text × FingerprintSeries)
oom_series = (codes "e1", record { total = 3; buckets = 1 ∷ 2 ∷ [] }) ∷ []

abbrev page : PageData
page = record {
  events = oom ∷ [];
  apps = shop ∷ [];
  deployments = [];
  snapshots = [];
  series = oom_series;
  environment = production;
  time_range = day;
}

abbrev plain_search : Search
plain_search = record {
  q = codes "cart";
  type = [];
  severity = codes "critical,error";
  status = [];
  app = [];
  deployment = [];
  server = [];
  chip = no_chip;
  sort = last_seen;
  dir = desc;
}

Mem-event_rows_example :
    Mem oom (event_rows same compare_text no_number 0 page plain_search)
    ↔ (Mem oom page.events × IsShown same compare_text no_number 0 page plain_search oom)
Mem-event_rows_example = Mem-event_rows same compare_text no_number 0 page plain_search oom

error-IsValue : IsValue (codes "error")
error-IsValue = record {
  plain = (
    (λ e. absurd (omega arith)),
    (
      (λ e. absurd (omega arith)),
      (
        (λ e. absurd (omega arith)),
        ((λ e. absurd (omega arith)), ((λ e. absurd (omega arith)), tt)),
      ),
    ),
  );
  given = refl;
}

csv_set-toggle_csv_example :
    has (codes "error") (csv_set (toggle_csv (codes "critical,error") (codes "error"))) ≡ (
      if codes "error" == codes "error"
      then not (has (codes "error") (csv_set (codes "critical,error")))
      else has (codes "error") (csv_set (codes "critical,error")))
csv_set-toggle_csv_example =
    csv_set-toggle_csv (codes "critical,error") (codes "error") (codes "error") error-IsValue

abbrev dashboard : DashboardData
dashboard = record {
  events = oom ∷ [];
  apps = shop ∷ [];
  deployments = [];
  series = oom_series;
  environment = production;
}

new_and_increasing_lem_example :
    (length (new_and_increasing compare_text no_number 0 dashboard) ≤ 8)
    × Nodup (map (λ (e : EventRow). e.id) (new_and_increasing compare_text no_number 0 dashboard))
    × IsFalling compare_text no_number 0 dashboard
        (new_and_increasing compare_text no_number 0 dashboard)
    × All
        (IsListed compare_text no_number 0 dashboard)
        (new_and_increasing compare_text no_number 0 dashboard)
new_and_increasing_lem_example = new_and_increasing_lem compare_text no_number 0 dashboard
