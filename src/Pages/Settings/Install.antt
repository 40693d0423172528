-- ===== src/Pages/Settings/Install.antt =====
-- The snippets for installing agents and the catalogue of integrations of
-- frontend/src/routes/_authenticated/settings.tsx.
use jvm_scout.Base.{
  ◌∷◌, [], ◌++◌, List, Option, none, some, Bool, true, false, Text, codes, text_dec, find, ltb,
  ◌or_else◌,
}
use jvm_scout.Client.Values.{Value, str, Row, column, strict_eq}
use jvm_scout.Pages.Settings.{is_truthy, has_type}
use jvm_scout.Pages.Settings.Fleet.{AgentStats}

-- `key`
abbrev pub shown_key : Option Text → Text
shown_key new_key = new_key or_else codes "<your-ingest-token>"

-- `(agentStats?.active ?? 0) > 0`
abbrev pub reporting_active : Option AgentStats → Bool
reporting_active none = false
reporting_active (some s) = ltb 0 s.active

-- `t.project_id || "default"`
abbrev pub project_of : Row → Value
project_of t = elim (is_truthy (column (codes "project_id") t)) [
  | false ↦ str (codes "default")
  | true ↦ column (codes "project_id") t
]

abbrev newline : Text
newline = 10 ∷ []

abbrev pub lines : List Text → Text
lines [] = []
lines (l ∷ []) = l
lines (l ∷ m ∷ ms) = l ++ (newline ++ lines (m ∷ ms))

abbrev pub yaml_snippet : Text
yaml_snippet = lines (
    codes "host: <collector-host>"
    ∷ codes "port: 8080"
    ∷ codes "deployment: <your-service>"
    ∷ codes "environment: production"
    ∷ [])

unfoldable pub shell_snippet : (key : Text) → Text
shell_snippet key = lines (
    codes "export JVMSCOUT_HOME=/opt/jvmscout"
    ∷ (codes "export JVMSCOUT_API_KEY=" ++ key)
    ∷ codes "java -agentpath:$JVMSCOUT_HOME/lib/libjvmti-agent.so -jar your-app.jar"
    ∷ [])

unfoldable pub docker_snippet : (key : Text) → Text
docker_snippet key = lines (
    codes "docker run -d \\"
    ∷ codes "  -v /opt/jvmscout:/opt/jvmscout:ro \\"
    ∷ codes "  -e JVMSCOUT_HOME=/opt/jvmscout \\"
    ∷ (codes "  -e JVMSCOUT_API_KEY=" ++ (key ++ codes " \\"))
    ∷ codes "  -e JAVA_TOOL_OPTIONS=\"-agentpath:/opt/jvmscout/lib/libjvmti-agent.so\" \\"
    ∷ codes "  your-org/your-app:latest"
    ∷ [])

-- `INTEGRATION_CATALOG`: the types, with the names that are shown.
abbrev pub integration_catalog : List (Text × Text)
integration_catalog =
    (codes "slack", codes "Slack")
    ∷ (codes "pagerduty", codes "PagerDuty")
    ∷ (codes "jira", codes "Jira")
    ∷ (codes "datadog", codes "Datadog")
    ∷ (codes "webhook", codes "Webhook")
    ∷ []

-- `row?.status === "connected"`
abbrev pub shows_connected : Option Row → Bool
shows_connected none = false
shows_connected (some r) = strict_eq (column (codes "status") r) (str (codes "connected"))

-- `connected` of a type, where the rows of the integrations are there.
unfoldable pub is_connected : List Row → Text → Bool
is_connected rows type = shows_connected (find (has_type type) rows)
