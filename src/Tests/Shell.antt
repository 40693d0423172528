-- ===== src/Tests/Shell.antt =====
-- The theorems about the layout and the formats at concrete inputs.
use jvm_scout.Base.{suc, ◌*◌, ◌≤◌, ◌<◌, ◌≡◌, ◌↔◌, true, false}
use jvm_scout.Client.Http.{ok, verify_api_key}
use jvm_scout.Auth.{signed_out, probe}
use jvm_scout.Shell.{loading, pages, layout_of}
use jvm_scout.Shell.Laws.{layout_of-probe}
use jvm_scout.Format.{age_of}
use jvm_scout.Format.Laws.{seconds, IsSmall, age_of-bounds}
use jvm_scout.Tests.Data.{served, start}

layout_of-probe_example :
    (layout_of (signed_out start) ≡ loading)
    × ((layout_of (probe served false (signed_out start)) ≡ pages)
        ↔ ((verify_api_key served start).0 ≡ ok true))
layout_of-probe_example = layout_of-probe served start

age_of-bounds_example :
    ((age_of 7300).0 * seconds (age_of 7300).1 ≤ 7300)
    × (7300 < suc (age_of 7300).0 * seconds (age_of 7300).1)
    × IsSmall (age_of 7300).0 (age_of 7300).1
age_of-bounds_example = age_of-bounds 7300
