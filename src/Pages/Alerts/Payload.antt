-- ===== src/Pages/Alerts/Payload.antt =====
-- What the form of frontend/src/routes/_authenticated/alerts.tsx sends: `describeCondition`, the payload
-- of `save`, and `canSave`.
use jvm_scout.Base.{
  ◌∷◌, [], ◌++◌, List, Option, none, some, Bool, true, ◌&&◌, not, Text, codes, text_dec, show, find,
  is_empty, trim, if◌then◌else◌, ◌==◌,
}
use jvm_scout.Client.Values.{Value, Row, bool, str, null, object}
use jvm_scout.Pages.Alerts.Form.{
  TriggerType, new_event, volume_threshold, deploy_regression, event_reoccurs, ChannelType, slack,
  pagerduty, email, webhook, everywhere, on_app, on_deployment, AlertConfig, Payload, App,
  FormState,
}

abbrev pub quote : Text
quote = 34 ∷ []

-- `describeCondition`
unfoldable pub describe_condition : FormState → Text
describe_condition f = elim f.trigger_type [
  | new_event ↦ codes "When a new exception class first appears"
  | volume_threshold ↦
      codes "When occurrences exceed "
      ++ (show f.threshold ++ (codes " in " ++ (show f.window_minutes ++ codes "m")))
  | deploy_regression ↦ codes "When a new error is introduced by a deployment"
  | event_reoccurs ↦
      codes "When "
      ++ (quote
          ++ ((if is_empty f.event_name then codes "(any)" else f.event_name)
              ++ (quote ++ codes " reoccurs")))
]

-- `t || undefined`, and `t || null`.
abbrev pub filled : Text → Option Text
filled t = if is_empty t then none else some t

abbrev pub config_of : FormState → AlertConfig
config_of f = elim f.trigger_type [
  | new_event ↦ record {
    threshold = none;
    window_minutes = none;
    event_name = none;
    destination = filled (trim f.destination);
  }
  | volume_threshold ↦ record {
    threshold = some f.threshold;
    window_minutes = some f.window_minutes;
    event_name = none;
    destination = filled (trim f.destination);
  }
  | deploy_regression ↦ record {
    threshold = none;
    window_minutes = none;
    event_name = none;
    destination = filled (trim f.destination);
  }
  | event_reoccurs ↦ record {
    threshold = none;
    window_minutes = none;
    event_name = some (trim f.event_name);
    destination = filled (trim f.destination);
  }
]

-- `find(...)?.name ?? "all"`
abbrev pub name_of : List App → Text → Text
name_of apps id = elim (find (λ a. a.id == id) apps) [ none ↦ codes "all" | some a ↦ a.name ]

-- `target`
abbrev pub target_of : List App → List App → FormState → Text
target_of apps deployments f =
    if is_empty (trim f.destination)
    then (elim f.scope [
      | everywhere ↦ codes "all"
      | on_app ↦ name_of apps f.application_id
      | on_deployment ↦ name_of deployments f.deployment_id
    ])
    else trim f.destination

abbrev pub app_id_sent : FormState → Option Text
app_id_sent f = elim f.scope [
  | everywhere ↦ none
  | on_app ↦ filled f.application_id
  | on_deployment ↦ none
]

abbrev pub deployment_id_sent : FormState → Option Text
deployment_id_sent f = elim f.scope [
  | everywhere ↦ none
  | on_app ↦ none
  | on_deployment ↦ filled f.deployment_id
]

-- `payload`
unfoldable pub payload_of : List App → List App → FormState → Payload
payload_of apps deployments f = record {
  name = trim f.name;
  enabled = f.enabled;
  trigger_type = f.trigger_type;
  application_id = app_id_sent f;
  deployment_id = deployment_id_sent f;
  channel = f.channel;
  target = target_of apps deployments f;
  condition = describe_condition f;
  config = config_of f;
}

-- `canSave`
unfoldable pub can_save : FormState → Bool
can_save f =
    not (is_empty (trim f.name))
    && (not (is_empty (trim f.destination)) && (elim f.scope [
      | everywhere ↦ true
      | on_app ↦ not (is_empty f.application_id)
      | on_deployment ↦ not (is_empty f.deployment_id)
    ]))

abbrev trigger_text : TriggerType → Text
trigger_text new_event = codes "new_event"
trigger_text volume_threshold = codes "volume_threshold"
trigger_text deploy_regression = codes "deploy_regression"
trigger_text event_reoccurs = codes "event_reoccurs"

abbrev channel_text : ChannelType → Text
channel_text slack = codes "slack"
channel_text pagerduty = codes "pagerduty"
channel_text email = codes "email"
channel_text webhook = codes "webhook"

abbrev text_or_null : Option Text → Value
text_or_null none = null
text_or_null (some t) = str t

-- The payload as the row that the query builder takes.
unfoldable pub to_row : Payload → Row
to_row r =
    (codes "name", str r.name)
    ∷ (codes "enabled", bool r.enabled)
    ∷ (codes "trigger_type", str (trigger_text r.trigger_type))
    ∷ (codes "application_id", text_or_null r.application_id)
    ∷ (codes "deployment_id", text_or_null r.deployment_id)
    ∷ (codes "channel", str (channel_text r.channel))
    ∷ (codes "target", str r.target)
    ∷ (codes "condition", str r.condition)
    ∷ (codes "config", object)
    ∷ []
