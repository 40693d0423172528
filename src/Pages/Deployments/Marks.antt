-- ===== src/Pages/Deployments/Marks.antt =====
-- `HitDelta` of frontend/src/routes/_authenticated/deployments.tsx, and the chart and the new events of
-- frontend/src/routes/_authenticated/deployments.$id.tsx.
use jvm_scout.Base.{ℕ, zero, suc, ◌∷◌, [], List, Text, codes, sort_by}
use jvm_scout.Base.Int.{ℤ, pos, negsuc}
use jvm_scout.Client.Events.{EventRow}
use jvm_scout.Pages.Deployments.{DeploymentDelta}
use jvm_scout.Pages.Times.{by_number, descending}

pub data Arrow : Type 0 where
  up down level : Arrow

-- `Icon`
unfoldable pub arrow_of : ℤ → Arrow
arrow_of (pos zero) = level
arrow_of (pos (suc n)) = up
arrow_of (negsuc n) = down

-- The number beside the arrow; `compact` is `compactNumber`.
unfoldable pub delta_text : (compact : ℕ → Text) → ℤ → Text
delta_text compact (pos zero) = codes "0"
delta_text compact (pos (suc n)) = compact (suc n)
delta_text compact (negsuc n) = compact (suc n)

-- `chartData`
abbrev pub chart_data : DeploymentDelta → List (Text × ℕ)
chart_data d = (codes "Before", d.hits_prev) ∷ (codes "After", d.hits_this) ∷ []

-- The rows of the new events, the most hits first.
unfoldable pub sorted_new_events : List EventRow → List EventRow
sorted_new_events events = sort_by (descending (by_number (λ e. e.hit_count))) events
