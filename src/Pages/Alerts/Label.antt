-- ===== src/Pages/Alerts/Label.antt =====
-- The scope that a row of frontend/src/routes/_authenticated/alerts.tsx names.
use jvm_scout.Base.{
  ◌++◌, ◌∷◌, [], ◌≡◌, refl, List, Option, none, some, Text, codes, text_dec, is_empty, lookup,
  if◌then◌else◌,
}
use jvm_scout.Pages.Times.{index_by}
use jvm_scout.Pages.Alerts.Form.{Payload, App}

-- The row with an id that is neither null nor empty.
abbrev pub known : List App → Option Text → Option App
known apps none = none
known apps (some id) = if is_empty id then none else lookup id (index_by (λ a. a.id) apps)

-- The separator, a middle dot between spaces.
abbrev pub dot_between : Text
dot_between = 32 ∷ 183 ∷ 32 ∷ []

abbrev pub scope_text : Option App → Option App → Text
scope_text (some a) d = codes "App" ++ (dot_between ++ a.name)
scope_text none (some d) = codes "Deploy" ++ (dot_between ++ d.name)
scope_text none none = codes "All environments"

-- `scope`
unfoldable pub scope_label : (apps deployments : List App) → Payload → Text
scope_label apps deployments r =
    scope_text (known apps r.application_id) (known deployments r.deployment_id)

-- A rule for an application that is not known, and for no deployment, is labelled as one for all.
scope_label_unknown :
    (apps deployments : List App) (r : Payload)
    → known apps r.application_id ≡ none
    → known deployments r.deployment_id ≡ none
    → scope_label apps deployments r ≡ codes "All environments"
unfolding scope_label
scope_label_unknown apps deployments r h k = rw (h, k) refl
