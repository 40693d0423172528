-- ===== src/Pages/Alerts.antt =====
-- frontend/src/routes/_authenticated/alerts.tsx: the rules, and the form that edits one.
pub mod Form
pub mod Payload
pub mod Label
use jvm_scout.Base.{
  ℕ, ◌∷◌, [], List, Option, none, some, Bool, true, false, Text, codes, if◌then◌else◌,
}
use jvm_scout.Client.Values.{Row, bool, str, null, object}
use jvm_scout.Client.Http.{Platform, Effect}
use jvm_scout.Adapter.Query.{Filter}
use jvm_scout.Pages.Mutations.{list_ordered, update_by_id, delete_by_id, insert_row}
use jvm_scout.Pages.Alerts.Form.{AlertRow, App, FormState}
use jvm_scout.Pages.Alerts.Payload.{payload_of, to_row}

module _ {World : Type 0} (p : Platform World) (number : Text → Option ℕ)
    (read_table : Text → List Filter → Effect World (List Row)) where
  -- The query of the rules, the newest first.
  unfoldable pub alert_rules : Effect World (List Row)
  alert_rules = list_ordered p number read_table (codes "alert_rules") (codes "created_at") false

  unfoldable pub toggle_enabled : Text → Bool → Effect World (Unit {0})
  toggle_enabled id enabled =
      update_by_id p number read_table (codes "alert_rules") ((codes "enabled", bool enabled) ∷ [])
        id

  unfoldable pub delete_rule : Text → Effect World (Unit {0})
  delete_rule id = delete_by_id p number read_table (codes "alert_rules") id

  -- `save`: the rule that was opened is updated, a new one is inserted.
  unfoldable pub save : List App → List App → Option AlertRow → FormState → Effect World (Unit {0})
  save apps deployments none form =
      insert_row p number read_table (codes "alert_rules")
        (to_row (payload_of apps deployments form))
  save apps deployments (some initial) form =
      update_by_id p number read_table (codes "alert_rules")
        (to_row (payload_of apps deployments form)) initial.id
