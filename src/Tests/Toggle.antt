-- ===== src/Tests/Toggle.antt =====
-- The toggle of an integration at a concrete collector.
use jvm_scout.Base.{
  ◌≡◌, refl, arith, inl, inr, ◌++◌, ◌∷◌, [], List, true, Text, codes, map, Nodup, text_dec,
  text_discrete, lookup, if◌then◌else◌, ◌==◌,
}
use jvm_scout.Client.Values.{Row, str, column, to_text}
use jvm_scout.Client.Endpoints.{Endpoint, Reply}
use jvm_scout.Client.Http.{Platform, ClientState, Effect, Fetched, response, parsed, ok, pure}
use jvm_scout.Adapter.Query.{Filter}
use jvm_scout.Adapter.Store.{id_of}
use jvm_scout.Adapter.Changes.{IsChangeStore}
use jvm_scout.Pages.Settings.{toggle_integration}
use jvm_scout.Pages.Settings.Install.{is_connected}
use jvm_scout.Pages.Settings.Toggle.{toggle_integration-is_connected}
use jvm_scout.Tests.Data.{Tables, rows_of_table, serve_from, served, start, no_number}

-- A collector that appends the rows it is sent and changes the row with an id.
abbrev keep_from : (e : Endpoint) → List (Text × Text) → Tables → Fetched (Reply e) × Tables
keep_from (Endpoint.config_insert table row) headers w =
    (response 200 (parsed row), λ u. if table == u then w u ++ row ∷ [] else w u)
keep_from (Endpoint.config_update table id patch) headers w = (
  response 200 (parsed patch),
  λ u. if table == u then map (λ r. if id_of r == id then patch ++ r else r) (w u) else w u,
)
keep_from e headers w = serve_from e headers w

abbrev keeping : Platform Tables
keeping = record served { fetch = keep_from }

keeping-IsChangeStore : IsChangeStore keeping rows_of_table
keeping-IsChangeStore = record {
  made = λ t r w. r;
  insert_reply = λ t r h w. refl;
  insert_keeps = λ t c r w free. refl;
  insert_appends = λ t u r h w. refl;
  updated = λ t id r w. r;
  update_reply = λ t id r h w. refl;
  update_assigns = λ t id c u v h w free. refl;
}

abbrev integration : Text → Text → Row
integration id type =
    (codes "id", str id)
    ∷ (codes "type", str type)
    ∷ (codes "status", str (codes "disconnected"))
    ∷ []

abbrev linked : Tables
linked t = integration (codes "i1") (codes "slack") ∷ integration (codes "i2") (codes "jira") ∷ []

abbrev settled : ClientState Tables
settled = record start { world = linked }

linked-distinct : Nodup (map id_of (linked (codes "integrations")))
unfolding column text_discrete lookup to_text
linked-distinct = ((λ m. elim m [ inl e ↦ absurd (ground arith) | inr n ↦ n ]), ((λ n. n), tt))

abbrev nothing_read : Text → List Filter → Effect Tables (List Row)
nothing_read t filters = pure []

toggle_integration-is_connected_example :
    (s' : ClientState Tables) × (toggle_integration keeping no_number nothing_read
        (linked (codes "integrations"))
        (codes "slack")
        true
        settled
      ≡ (ok tt, s'))
    × ((u : Text)
        → is_connected (s'.world (codes "integrations")) u
          ≡ (if codes "slack" == u then true else is_connected (linked (codes "integrations")) u))
toggle_integration-is_connected_example =
    toggle_integration-is_connected keeping rows_of_table keeping-IsChangeStore no_number
      nothing_read settled (codes "slack") true linked-distinct
