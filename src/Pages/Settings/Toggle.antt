-- ===== src/Pages/Settings/Toggle.antt =====
-- The toggle of an integration in frontend/src/routes/_authenticated/settings.tsx, down to the collector.
use jvm_scout.Base.{
  ℕ, ◌≡◌, refl, ap, ◌∙◌, inl, inr, ◌∷◌, [], List, Option, Option-cases, none, some, Bool, true,
  false, Text, codes, text_dec, text_discrete, nat_dec, ℕ_discrete, map, has, lookup, Nodup, find,
  if◌then◌else◌, ◌==◌,
}
use jvm_scout.Client.Values.{str, object, Row, column}
use jvm_scout.Client.Http.{Platform, ClientState, Effect, ok}
use jvm_scout.Adapter.Query.{Filter, is_config}
use jvm_scout.Adapter.Store.{id_of}
use jvm_scout.Adapter.Changes.{IsChangeStore, is_assigned, config_insert_lem, config_update_lem}
use jvm_scout.Pages.Mutations.{insert_row, update_by_id}
use jvm_scout.Pages.Mutations.Laws.{mutations_lem}
use jvm_scout.Pages.Settings.{has_type, connection_text, toggle_row, toggle_integration}
use jvm_scout.Pages.Settings.Install.{is_connected}
use jvm_scout.Pages.Settings.Connections.{status, toggled_existing, toggled_new}

config_integrations : is_config (codes "integrations") ≡ true
unfolding is_config has text_discrete ℕ_discrete
config_integrations = refl

free_status : is_assigned status ≡ false
unfolding has text_discrete ℕ_discrete
free_status = refl

free_type : is_assigned (codes "type") ≡ false
unfolding has text_discrete ℕ_discrete
free_type = refl

abbrev new_row : Text → Bool → Row
new_row type connect =
    (codes "type", str type)
    ∷ (status, str (connection_text connect))
    ∷ (codes "config", object)
    ∷ []

type_of_new :
    (type : Text) (connect : Bool) → column (codes "type") (new_row type connect) ≡ str type
unfolding column lookup text_discrete ℕ_discrete
type_of_new type connect = refl

status_of_new :
    (type : Text) (connect : Bool)
    → column status (new_row type connect) ≡ str (connection_text connect)
unfolding column lookup text_discrete ℕ_discrete
status_of_new type connect = refl

module _ {World : Type 0} (p : Platform World) (table_of : World → Text → List Row)
    (store : IsChangeStore p table_of) (number : Text → Option ℕ)
    (read_table : Text → List Filter → Effect World (List Row)) (s : ClientState World)
    (type : Text) (connect : Bool) where
  abbrev stored : ClientState World → List Row
  stored t = table_of t.world (codes "integrations")

  toggle_new :
      (rows : List Row)
      → find (has_type type) rows ≡ none
      → toggle_integration p number read_table rows type connect
        ≡ insert_row p number read_table (codes "integrations") (new_row type connect)
  unfolding toggle_integration
  toggle_new rows missing = ap (toggle_row p number read_table type connect) missing

  toggle_existing :
      (rows : List Row) (existing : Row)
      → find (has_type type) rows ≡ some existing
      → toggle_integration p number read_table rows type connect
        ≡ update_by_id p number read_table
            (codes "integrations")
            ((status, str (connection_text connect)) ∷ [])
            (id_of existing)
  unfolding toggle_integration
  toggle_existing rows existing found = ap (toggle_row p number read_table type connect) found

  -- Against a collector that appends a row it is sent and sets a column of the row with an id, and with
  -- its rows loaded, whose ids are distinct, the toggle of an integration succeeds.
  -- Then the card of its type shows what was chosen, and every other card what it showed before.
  pub toggle_integration-is_connected :
      Nodup (map id_of (stored s))
      → (s' : ClientState World) × (toggle_integration p number read_table (stored s) type connect s
          ≡ (ok tt, s'))
        × ((u : Text)
            → is_connected (stored s') u
              ≡ (if type == u then connect else is_connected (stored s) u))
  toggle_integration-is_connected distinct = elim (Option-cases (find (has_type type) (stored s))) [
    | inl missing ↦
        let row = new_row type connect in
        let (s', run_ok, rows) = config_insert_lem p table_of store (codes "integrations") s row in
        let (_, _, sent) =
          mutations_lem p number read_table (codes "integrations") [] row s config_integrations in
        let made = store.made (codes "integrations") row s.world in
        (
          s',
          ap (λ m. m s) (toggle_new (stored s) missing) ∙ sent ∙ run_ok,
          λ u.
              ap (λ rs. is_connected rs u) rows
              ∙ toggled_new (stored s) type u connect made missing
                  (store.insert_keeps (codes "integrations") (codes "type") row s.world free_type
                    ∙ type_of_new type connect)
                  (store.insert_keeps (codes "integrations") status row s.world free_status
                    ∙ status_of_new type connect),
        )
    | inr (existing, found) ↦
        let value = str (connection_text connect) in
        let (s', run_ok, rows) =
          config_update_lem p table_of store (codes "integrations") s (id_of existing) status value
            free_status in
        let (_, sent, _) =
          mutations_lem p number read_table (codes "integrations") (id_of existing)
            ((status, value) ∷ []) s config_integrations in
        (
          s',
          ap (λ m. m s) (toggle_existing (stored s) existing found) ∙ sent ∙ run_ok,
          λ u.
              ap (λ rs. is_connected rs u) rows
              ∙ toggled_existing (stored s) type u connect existing distinct found,
        )
  ]
