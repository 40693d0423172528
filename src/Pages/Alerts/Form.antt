-- ===== src/Pages/Alerts/Form.antt =====
-- The form of frontend/src/routes/_authenticated/alerts.tsx, and `fromRow`.
pub mod Laws
use jvm_scout.Base.{
  ℕ, ◌∷◌, [], ◌++◌, List, Option, none, some, Bool, true, false, ◌&&◌, ◌||◌, not, Text, codes,
  text_dec, show, find, is_empty, trim, if◌then◌else◌, ◌==◌, ◌or_else◌,
}
use jvm_scout.Client.Values.{Value, Row, bool, str, null, object}

pub data TriggerType : Type 0 where
  new_event volume_threshold deploy_regression event_reoccurs : TriggerType

pub data ChannelType : Type 0 where
  slack pagerduty email webhook : ChannelType

pub data Scope : Type 0 where
  everywhere on_app on_deployment : Scope

-- The configuration of a rule; a field that is undefined is absent.
pub record AlertConfig : Type 0 where
  pub threshold : Option ℕ
  pub window_minutes : Option ℕ
  pub event_name : Option Text
  pub destination : Option Text

-- What a rule's row has of the form.
pub record Payload : Type 0 where
  pub name : Text
  pub enabled : Bool
  pub trigger_type : TriggerType
  pub application_id : Option Text
  pub deployment_id : Option Text
  pub channel : ChannelType
  pub target : Text
  pub condition : Text
  pub config : AlertConfig

pub record AlertRow : Type 0 where
  pub id : Text
  pub rule : Payload

-- An application, or a deployment, to choose from.
pub record App : Type 0 where
  pub id : Text
  pub name : Text

pub record FormState : Type 0 where
  pub name : Text
  pub enabled : Bool
  pub trigger_type : TriggerType
  pub scope : Scope
  pub application_id : Text
  pub deployment_id : Text
  pub threshold : ℕ
  pub window_minutes : ℕ
  pub event_name : Text
  pub channel : ChannelType
  pub destination : Text

abbrev pub empty_form : FormState
empty_form = record {
  name = [];
  enabled = true;
  trigger_type = new_event;
  scope = everywhere;
  application_id = [];
  deployment_id = [];
  threshold = 50;
  window_minutes = 5;
  event_name = [];
  channel = slack;
  destination = [];
}

-- Whether a text that may be null is neither null nor empty.
abbrev pub is_filled : Option Text → Bool
is_filled none = false
is_filled (some t) = not (is_empty t)

abbrev pub scope_of : Payload → Scope
scope_of r =
    if is_filled r.application_id
    then on_app
    else if is_filled r.deployment_id
    then on_deployment
    else everywhere

-- `fromRow`
unfoldable pub from_row : AlertRow → FormState
from_row row =
    let r = row.rule in
    record {
      name = r.name;
      enabled = r.enabled;
      trigger_type = r.trigger_type;
      scope = scope_of r;
      application_id = r.application_id or_else [];
      deployment_id = r.deployment_id or_else [];
      threshold = r.config.threshold or_else 50;
      window_minutes = r.config.window_minutes or_else 5;
      event_name = r.config.event_name or_else [];
      channel = r.channel;
      destination = r.config.destination or_else r.target;
    }
