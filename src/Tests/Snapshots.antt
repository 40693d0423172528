-- ===== src/Tests/Snapshots.antt =====
-- The theorems about one snapshot and about one application at concrete inputs.
use jvm_scout.Base.{
  ◌≡◌, refl, map, sort_by, ◌↔◌, List, ◌∷◌, [], some, Text, codes, inl, text_dec, text_discrete,
  ℕ_discrete, Mem, is_lt, true,
}
use jvm_scout.Client.Http.{ok, http, answer}
use jvm_scout.Client.Frames.{frames_of, variables_of, stack_of, fetch_exception_detail}
use jvm_scout.Client.Applications.{ApplicationRow, production}
use jvm_scout.Client.Servers.{ServerRow, active}
use jvm_scout.Adapter.Tables.{frame_columns, variable_columns, load_read_table}
use jvm_scout.Adapter.Tables.Frames.{by_index}
use jvm_scout.Pages.EventDetail.Queries.{use_snapshot_detail}
use jvm_scout.Pages.EventDetail.Queries.Shown.{use_snapshot_detail-frames}
use jvm_scout.Shell.{day}
use jvm_scout.Pages.Versions.{compare_semver}
use jvm_scout.Pages.Application.{view_for, is_outdated}
use jvm_scout.Pages.Application.Outdated.{is_outdated-newer}
use jvm_scout.Tests.Data.{served, start, one_frame, one_detail, plain_five, iso_of, no_number, same}

found : fetch_exception_detail served (codes "5") start ≡ (ok (some one_detail), start)
unfolding fetch_exception_detail http answer ℕ_discrete
found = refl

use_snapshot_detail-frames_example :
    use_snapshot_detail served no_number
      (load_read_table served iso_of no_number same)
      (codes "5")
      start
    ≡ (
      ok (record {
        frames =
            map frame_columns
              (sort_by by_index (frames_of (codes "5") 0 (stack_of (some one_detail))));
        logs = [];
        variables = map variable_columns (variables_of (codes "5") 0 (stack_of (some one_detail)));
      }),
      start,
    )
use_snapshot_detail-frames_example =
    use_snapshot_detail-frames served iso_of no_number same no_number (codes "5") plain_five
      one_detail start start start found found one_frame [] refl

abbrev server_with : Text → Text → ServerRow
server_with id version = record {
  id = id;
  hostname = id;
  application_id = codes "shop";
  status = active;
  agent_version = version;
  last_seen = [];
}

abbrev fleet : List ServerRow
fleet = server_with (codes "a") (codes "1.9.0") ∷ server_with (codes "b") (codes "1.10.0") ∷ []

abbrev shop : ApplicationRow
shop = record { id = codes "shop"; name = codes "shop"; environment = production; created_at = [] }

abbrev old_server : ServerRow
old_server = server_with (codes "a") (codes "1.9.0")

old_in_view :
    Mem old_server (view_for no_number 9 day (shop ∷ []) [] fleet [] (codes "shop") shop).servers
unfolding view_for text_discrete ℕ_discrete
old_in_view = inl refl

is_outdated-newer_example :
    (is_outdated
        (view_for no_number 9 day (shop ∷ []) [] fleet [] (codes "shop") shop).latest_version
        old_server
      ≡ true)
    ↔ ((t : ServerRow) × (Mem t fleet
          × (is_lt (compare_semver (codes "1.9.0") t.agent_version) ≡ true)))
is_outdated-newer_example =
    is_outdated-newer no_number 9 day (shop ∷ []) [] fleet [] (codes "shop") shop old_server
      old_in_view
