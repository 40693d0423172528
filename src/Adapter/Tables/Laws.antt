-- ===== src/Adapter/Tables/Laws.antt =====
-- Selects on derived tables, down to the collector.
use jvm_scout.Base.{
  ℕ, ◌≡◌, refl, ap, ◌∙◌, List, Option, none, some, false, map, take, Text, codes, text_discrete,
  has, text_dec,
}
use jvm_scout.Client.Rows.{ExceptionListRow}
use jvm_scout.Client.Http.{Platform, ClientState, ok, pure, throw, type_error, >>=-ok}
use jvm_scout.Client.Cache.{fetch_all_exceptions, default_cap}
use jvm_scout.Client.Cache.Laws.{fetch_all_serving}
use jvm_scout.Client.Cache.Paging.{IsServing}
use jvm_scout.Client.Events.{EventRow, events_of}
use jvm_scout.Client.Events.Laws.{IsEventTable, events_of_total}
use jvm_scout.Adapter.Query.{Query, Filter, Op, Mode, is_config}
use jvm_scout.Adapter.Run.{rows, selected, source_rows, run}
use jvm_scout.Adapter.Errors.{run-select}
use jvm_scout.Adapter.Tables.{derive_events, event_columns, load_read_table}

module _ {World : Type 0} (p : Platform World) (iso : ℕ → Text) (time_of : Text → Option ℕ)
    (lower : Text → Text) (number : Text → Option ℕ) (xs : List ExceptionListRow)
    (serving : IsServing p xs) where
  module _ (s : ClientState World) (cold : s.exc_cache ≡ none) where
    abbrev fetched : ClientState World
    fetched = (fetch_all_exceptions p default_cap s).1

    fetch_all_ok : fetch_all_exceptions p default_cap s ≡ (ok (take default_cap xs), fetched)
    fetch_all_ok = ap (λ r. (r, fetched)) (fetch_all_serving p xs serving s cold)

    derive_events-ok :
        (es : List EventRow)
        → events_of (take default_cap xs) ≡ some es
        → derive_events p iso time_of lower s ≡ (ok es, fetched)
    unfolding derive_events
    derive_events-ok es made =
        >>=-ok (fetch_all_exceptions p default_cap)
          (λ rows. elim (events_of rows) [ none ↦ throw type_error | some es ↦ pure es ])
          fetch_all_ok
        ∙ (rw made refl)

    load_events :
        (filters : List Filter) (es : List EventRow)
        → events_of (take default_cap xs) ≡ some es
        → load_read_table p iso time_of lower (codes "events") filters s
          ≡ (ok (map event_columns es), fetched)
    unfolding load_read_table text_discrete
    load_events filters es made =
        >>=-ok (derive_events p iso time_of lower) (λ rows. pure (map event_columns rows))
          (derive_events-ok es made)

    events_derived : is_config (codes "events") ≡ false
    unfolding is_config has text_discrete
    events_derived = refl

    events_source :
        (q : Query) (es : List EventRow)
        → q.table ≡ codes "events"
        → events_of (take default_cap xs) ≡ some es
        → source_rows p number (load_read_table p iso time_of lower) q s
          ≡ (ok (map event_columns es), fetched)
    unfolding source_rows
    events_source q es table made = rw (table, events_derived) (load_events q.filters es made)

    -- With an empty cache and a collector that serves a list of exceptions, a select of many rows from
    -- `events` succeeds. It selects from the table of events of the first 2000 exceptions: one event for
    -- each distinct key, which sums up the key's exceptions.
    pub run-events :
        (q : Query)
        → q.table ≡ codes "events"
        → q.op ≡ Op.select
        → q.mode ≡ Mode.many
        → (es : List EventRow) × IsEventTable (take default_cap xs) es
          × ((run p number (load_read_table p iso time_of lower) q s).0
              ≡ record { value = rows (selected number q (map event_columns es)); error = none })
    run-events q table op mode =
        let (es, made, summary) = events_of_total (take default_cap xs) in
        (
          es,
          summary,
          ap (λ r. r.0)
                (run-select p number (load_read_table p iso time_of lower) q s fetched
                  (map event_columns es) (events_source q es table made) op)
              ∙ (rw mode refl),
        )
