-- ===== src/Tests/Pages.antt =====
-- The theorems about the other pages at concrete inputs.
use jvm_scout.Pages.Events.Rows.{latest_deploy_by_app}
use jvm_scout.Pages.Events.Latest.{IsLatest, latest_deploy_by_app-IsLatest}
use jvm_scout.Base.{
  is_empty, lookup, false, ℕ, ◌++◌, any, inl, not_Mem_of_has, ◌≡◌, refl, [], ◌∷◌, List, Option,
  none, some, Bool, true, false, Text, codes, text_dec, text_discrete, ℕ_discrete, trim_start,
  trim_end, is_space, has, map, length, All, Nodup,
}
use jvm_scout.Client.Http.{pure, ◌>>=◌}
use jvm_scout.Client.Applications.{DeploymentRow}
use jvm_scout.Client.Frames.{FrameRow}
use jvm_scout.Adapter.Query.{is_config}
use jvm_scout.Adapter.Store.{config_update, config_insert, config_delete}
use jvm_scout.Adapter.Tables.{load_read_table}
use jvm_scout.Pages.EventDetail
use jvm_scout.Pages.EventDetail.{settle_frame, selected_frame, selected_index, has_index}
use jvm_scout.Pages.EventDetail.Trace.{
  trace_rows, frames_in, IsFolded, Alternates, frames_in-trace_rows,
}
use jvm_scout.Pages.EventDetail.Selection.{settle_frame-selected_frame}
use jvm_scout.Pages.EventDetail.Snippet.{is_terminator, parse_line, line_text, parse_line-line_text}
use jvm_scout.Pages.Alerts.Form.{App, FormState, volume_threshold, on_app, slack, from_row}
use jvm_scout.Pages.Alerts.Payload.{payload_of, can_save}
use jvm_scout.Pages.Alerts.Form.Laws.{clean, from_row-payload_of}
use jvm_scout.Pages.Mutations.{update_by_id, delete_by_id, insert_row}
use jvm_scout.Pages.Mutations.Laws.{mutations_lem}
use jvm_scout.Pages.Deployments.{previous_of}
use jvm_scout.Pages.Deployments.Previous.{HasTime, IsComparison, previous_of-IsComparison}
use jvm_scout.Tests.Data.{no_number, same, served, start, rule, iso_of}

abbrev frame_at : ℕ → Bool → FrameRow
frame_at i user = record {
  id = [];
  snapshot_id = codes "1";
  frame_index = i;
  class_name = codes "Cart";
  method = codes "add";
  file = [];
  line = 7;
  in_user_code = user;
  source_snippet = none;
}

abbrev stack : List FrameRow
stack = frame_at 0 false ∷ frame_at 1 false ∷ frame_at 2 true ∷ frame_at 3 false ∷ []

frames_in-trace_rows_example :
    (frames_in (trace_rows stack) ≡ stack)
    × All IsFolded (trace_rows stack)
    × Alternates (trace_rows stack)
frames_in-trace_rows_example = frames_in-trace_rows stack

-- The address names a frame that is not there.
abbrev stale : EventDetail.Search
stale = record { occ = some 4; frame = some 9 }

settle_frame-selected_frame_example :
    (settle_frame stack (settle_frame stack stale) ≡ settle_frame stack stale)
    × ((g : FrameRow) × ((selected_frame (settle_frame stack stale) stack ≡ some g)
          × (has_index (selected_index (settle_frame stack stale) stack) g ≡ true)))
settle_frame-selected_frame_example =
    settle_frame-selected_frame stale (frame_at 0 false)
      (frame_at 1 false ∷ frame_at 2 true ∷ frame_at 3 false ∷ [])

abbrev apps : List App
apps = record { id = codes "shop"; name = codes "Shop" } ∷ []

abbrev volume_form : FormState
volume_form = record {
  name = codes " busy ";
  enabled = true;
  trigger_type = volume_threshold;
  scope = on_app;
  application_id = codes "shop";
  deployment_id = codes "d1";
  threshold = 70;
  window_minutes = 9;
  event_name = codes "x";
  channel = slack;
  destination = codes "#ops";
}

volume-ready : can_save volume_form ≡ true
unfolding can_save trim_start trim_end is_space ℕ_discrete
volume-ready = refl

from_row-payload_of_example :
    from_row (record { id = codes "r1"; rule = payload_of apps [] volume_form }) ≡ clean volume_form
from_row-payload_of_example = from_row-payload_of apps [] volume_form (codes "r1") volume-ready

rules-config : is_config (codes "alert_rules") ≡ true
unfolding is_config has text_discrete
rules-config = refl

mutations_lem_example :
    (delete_by_id served no_number
        (load_read_table served iso_of no_number same)
        (codes "alert_rules")
        (codes "r1")
        start
      ≡ config_delete served (codes "alert_rules") (codes "r1") start)
    × (update_by_id served no_number
          (load_read_table served iso_of no_number same)
          (codes "alert_rules")
          (rule (codes "r1") (codes "calm"))
          (codes "r1")
          start
        ≡ (do
          _ ←
              config_update served
                (codes "alert_rules")
                (codes "r1")
                (rule (codes "r1") (codes "calm"))
          pure tt)
            start)
    × (insert_row served no_number
          (load_read_table served iso_of no_number same)
          (codes "alert_rules")
          (rule (codes "r1") (codes "calm"))
          start
        ≡ (do
          _ ← config_insert served (codes "alert_rules") (rule (codes "r1") (codes "calm"))
          pure tt)
            start)
mutations_lem_example =
    mutations_lem served no_number (load_read_table served iso_of no_number same)
      (codes "alert_rules") (codes "r1") (rule (codes "r1") (codes "calm")) start rules-config

-- The second deployment of the shop is compared with the first.
abbrev released : Text → DeploymentRow
released id = record { id = id; name = id; application_id = codes "shop"; started_at = id }

abbrev year_of : Text → Option ℕ
year_of t = some (length t)

abbrev releases : List DeploymentRow
releases = released (codes "v10") ∷ released (codes "v9") ∷ []

releases-HasTime : All (HasTime year_of) releases
releases-HasTime = ((3, refl), ((2, refl), tt))

releases-Nodup : Nodup (map (λ (x : DeploymentRow). x.id) releases)
unfolding has text_discrete ℕ_discrete
releases-Nodup = (not_Mem_of_has (codes "v10") (codes "v9" ∷ []) refl, (λ m. m, tt))

previous_of-IsComparison_example :
    IsComparison year_of releases releases-HasTime releases-Nodup
      (released (codes "v10"))
      (inl refl)
      (previous_of year_of releases (released (codes "v10")))
previous_of-IsComparison_example =
    previous_of-IsComparison year_of releases releases-HasTime releases-Nodup
      (released (codes "v10")) (inl refl)

abbrev source_code : Text
source_code = codes "return cart.total();"

source-one_line : any is_terminator source_code ≡ false
unfolding ℕ_discrete
source-one_line = refl

indent : All (λ c. is_space c ≡ true) (codes "  ")
unfolding is_space ℕ_discrete
indent = (refl, (refl, tt))

parse_line-line_text_example :
    (parse_line (codes "  " ++ line_text 42 source_code)
      ≡ record { line_no = some 42; code = source_code; failing = false })
    × (parse_line (codes "  " ++ (codes ">>> " ++ line_text 42 source_code))
        ≡ record { line_no = some 42; code = source_code; failing = true })
parse_line-line_text_example =
    parse_line-line_text 42 source_code source-one_line (codes "  ") indent

releases-named : All (λ (x : DeploymentRow). is_empty x.id ≡ false) releases
releases-named = (refl, (refl, tt))

latest_deploy_by_app-IsLatest_example :
    IsLatest (codes "shop") releases (lookup (codes "shop") (latest_deploy_by_app releases))
latest_deploy_by_app-IsLatest_example =
    latest_deploy_by_app-IsLatest (codes "shop") releases releases-Nodup releases-named
