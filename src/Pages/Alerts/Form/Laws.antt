-- ===== src/Pages/Alerts/Form/Laws.antt =====
-- A rule that was saved opens as it was saved.
use jvm_scout.Base.{◌≡◌, arith, ℕ, [], List, Bool, true, Text, trim}
use jvm_scout.Pages.Alerts.Form.{
  TriggerType, new_event, volume_threshold, deploy_regression, event_reoccurs, Scope, everywhere,
  on_app, on_deployment, App, ChannelType, FormState, from_row,
}
use jvm_scout.Pages.Alerts.Payload.{payload_of, can_save}

-- The form, trimmed, and without what its trigger and scope do not use: the default instead.
abbrev pub clean : FormState → FormState
clean f = record {
  name = trim f.name;
  enabled = f.enabled;
  trigger_type = f.trigger_type;
  scope = f.scope;
  application_id = elim f.scope [
    | on_app ↦ f.application_id
    | everywhere ↦ []
    | on_deployment ↦ []
  ];
  deployment_id = elim f.scope [ on_deployment ↦ f.deployment_id | everywhere ↦ [] | on_app ↦ [] ];
  threshold = elim f.trigger_type [
    | volume_threshold ↦ f.threshold
    | new_event ↦ 50
    | deploy_regression ↦ 50
    | event_reoccurs ↦ 50
  ];
  window_minutes = elim f.trigger_type [
    | volume_threshold ↦ f.window_minutes
    | new_event ↦ 5
    | deploy_regression ↦ 5
    | event_reoccurs ↦ 5
  ];
  event_name = elim f.trigger_type [
    | event_reoccurs ↦ trim f.event_name
    | new_event ↦ []
    | volume_threshold ↦ []
    | deploy_regression ↦ []
  ];
  channel = f.channel;
  destination = trim f.destination;
}

abbrev form :
    Text → Bool → TriggerType → Scope → Text → Text → ℕ → ℕ → Text → ChannelType → Text → FormState
form n e t s a d h w x c g = record {
  name = n;
  enabled = e;
  trigger_type = t;
  scope = s;
  application_id = a;
  deployment_id = d;
  threshold = h;
  window_minutes = w;
  event_name = x;
  channel = c;
  destination = g;
}

reopened :
    (apps deployments : List App) (n : Text) (e : Bool) (t : TriggerType) (s : Scope) (a d : Text)
    (h w : ℕ) (x : Text) (c : ChannelType) (g id : Text)
    → can_save (form n e t s a d h w x c g) ≡ true
    → from_row (record { id = id; rule = payload_of apps deployments (form n e t s a d h w x c g) })
      ≡ clean (form n e t s a d h w x c g)
unfolding from_row payload_of can_save
reopened apps deployments n e t s a d h w x c g id ready = ground arith

-- A form that can be saved opens again as it was, when the row has what was sent: the name, the event
-- name and the destination are trimmed, and what the trigger and the scope do not use is the default.
pub from_row-payload_of :
    (apps deployments : List App) (f : FormState) (id : Text)
    → can_save f ≡ true
    → from_row (record { id = id; rule = payload_of apps deployments f }) ≡ clean f
from_row-payload_of apps deployments f id ready =
    reopened apps deployments f.name f.enabled f.trigger_type f.scope f.application_id
      f.deployment_id f.threshold f.window_minutes f.event_name f.channel f.destination id ready
