-- ===== src/Tests/Client.antt =====
-- The theorems about frontend/src/integrations/collector/client.ts at concrete inputs.
use jvm_scout.Base.{
  [], ap, ℕ_discrete, ◌≡◌, refl, ap, ◌≢◌, arith, List, some, map, sum_by, All, Mem,
}
use jvm_scout.Client.Http.{
  ClientState, Cached, network_error, out_of_fuel, http, answer, ok, err, Keeps,
}
use jvm_scout.Client.Rows.{ExceptionListRow}
use jvm_scout.Client.Events.{EventRow, events_of, snapshots_of}
use jvm_scout.Client.Events.Laws.{
  IsEventTable, events_of_total, events_of-hits, snapshots_of-event_id,
}
use jvm_scout.Client.Cache.{
  pages, fresh_rows, fetch_all_exceptions, refetch_exceptions, invalidate_cache, default_cap,
}
use jvm_scout.Client.Cache.Laws.{
  ticked, fetch_all_terminates, fetch_all_failure, fetch_all_again, fetch_all_current,
  fetch_all_serving,
}
use jvm_scout.Client.Applications.{ApplicationRow, applications_of}
use jvm_scout.Client.Applications.Laws.{IsApplicationTable, applications_of_total}
use jvm_scout.Tests.Data.{
  Tables, iso_of, three-IsNamed, three_rows, served, served-IsServing, down, start, cached_at, warm,
}

events_of_total_example :
    (es : List EventRow) × (events_of three_rows ≡ some es) × IsEventTable three_rows es
events_of_total_example = events_of_total three_rows

abbrev made_events : List EventRow
made_events = events_of_total_example.0

events_of-hits_example : sum_by (λ e. e.hit_count) made_events ≡ 7
unfolding ℕ_discrete
events_of-hits_example = events_of-hits three_rows made_events events_of_total_example.1

snapshots_of-event_id_example :
    All (λ s. Mem s.event_id (map (λ e. e.id) made_events)) (snapshots_of three_rows)
snapshots_of-event_id_example =
    snapshots_of-event_id three_rows made_events events_of_total_example.1

fetch_all_terminates_example : (fetch_all_exceptions served 2000 start).0 ≢ err out_of_fuel
fetch_all_terminates_example = fetch_all_terminates served 2000 start

down_fails : (fetch_all_exceptions down 2000 start).0 ≡ err network_error
unfolding fetch_all_exceptions refetch_exceptions pages fresh_rows http answer
down_fails = refl

fetch_all_failure_example : Keeps start (fetch_all_exceptions down 2000 start).1
fetch_all_failure_example = fetch_all_failure down 2000 start network_error down_fails

abbrev after_fetch : ClientState Tables
after_fetch = record start { exc_cache = some (cached_at 1000) }

served_rows : (fetch_all_exceptions served default_cap start).0 ≡ ok three_rows
served_rows = fetch_all_serving served three_rows served-IsServing start refl

served_again : fetch_all_exceptions served default_cap start ≡ (ok three_rows, after_fetch)
unfolding fetch_all_exceptions refetch_exceptions pages fresh_rows http answer ℕ_discrete
served_again = refl

fetch_all_again_example :
    fetch_all_exceptions served default_cap (fetch_all_exceptions served default_cap start).1
    ≡ (ok three_rows, ticked served (fetch_all_exceptions served default_cap start).1)
fetch_all_again_example =
    fetch_all_again served default_cap start three_rows (cached_at 1000) served_rows
      (ap (λ r. r.1.exc_cache) served_again) (omega arith)

fetch_all_current_example :
    ((fetch_all_exceptions served default_cap (invalidate_cache warm)).0 ≡ ok three_rows)
    × ((c : Cached (List ExceptionListRow)) × ((fetch_all_exceptions served default_cap
            (invalidate_cache warm)).1.exc_cache
          ≡ some c)
        × (c.rows ≡ three_rows))
fetch_all_current_example = fetch_all_current served three_rows served-IsServing warm

applications_of_total_example :
    (apps : List ApplicationRow) × (s' : ClientState Tables) × (applications_of served iso_of
        (λ t. t)
        three_rows
        []
        start
      ≡ (ok apps, s'))
    × IsApplicationTable served iso_of (λ t. t) three_rows [] apps
applications_of_total_example =
    applications_of_total served iso_of (λ t. t) three_rows [] start three-IsNamed
