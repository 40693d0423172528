-- ===== src/Shell/Sparkline.antt =====
-- frontend/src/components/events/Sparkline.tsx: the points of the line, with exact fractions.
use jvm_scout.Base.{
  ℕ, suc, ◌-◌, ◌*◌, ◌≤◌, ◌<◌, min, max, ◌∷◌, [], ◌++◌, List, Text, codes, length, if◌then◌else◌,
  ◌==◌, nat_dec,
}

-- A quotient of numbers; with the denominator 0 it is no number.
pub record Quotient : Type 0 where
  pub over : ℕ
  pub under : ℕ

pub record Point : Type 0 where
  pub x : Quotient
  -- How far the point is below the upper edge.
  pub y : Quotient

-- `Math.min(...data)` and `Math.max(...data)`, of numbers that are not none.
abbrev pub least : ℕ → List ℕ → ℕ
least v [] = v
least v (w ∷ ws) = least (min v w) ws

abbrev pub greatest : ℕ → List ℕ → ℕ
greatest v [] = v
greatest v (w ∷ ws) = greatest (max v w) ws

-- `max - min || 1`
abbrev pub span_of : (low high : ℕ) → ℕ
span_of low high = if high - low == 0 then 1 else high - low

-- The point of a value: `x = i * step`, `y = height - ((v - min) / span) * (height - 2) - 1`.
abbrev pub point_at : (width height low span steps : ℕ) → ℕ → ℕ → Point
point_at width height low span steps i v = record {
  x = record { over = i * width; under = steps };
  y = record { over = height * span - (v - low) * (height - 2) - span; under = span };
}

abbrev pub points_from : (width height low span steps : ℕ) → ℕ → List ℕ → List Point
points_from width height low span steps i [] = []
points_from width height low span steps i (v ∷ vs) =
    point_at width height low span steps i v ∷ points_from width height low span steps (suc i) vs

unfoldable pub points_of : (width height : ℕ) → List ℕ → List Point
points_of width height [] = []
points_of width height (v ∷ vs) =
    let low = least v vs in
    let span = span_of low (greatest v vs) in
    points_from width height low span (length vs) 0 (v ∷ vs)

module _ (to_fixed : Quotient → Text) where
  abbrev pub spelled : Text → Point → Text
  spelled letter p = letter ++ (to_fixed p.x ++ (codes "," ++ to_fixed p.y))

  abbrev pub lines_to : List Point → Text
  lines_to [] = []
  lines_to (p ∷ ps) = codes " " ++ (spelled (codes "L") p ++ lines_to ps)

  -- `path`
  unfoldable pub path_of : List Point → Text
  path_of [] = []
  path_of (p ∷ ps) = spelled (codes "M") p ++ lines_to ps

-- The point stands in the drawing, a unit away from the upper and the lower edge.
abbrev pub IsInside : (width height : ℕ) → Point → Type 0
IsInside width height p =
    (0 < p.x.under)
    × ((0 < p.y.under)
        × ((p.x.over ≤ width * p.x.under)
            × ((p.y.under ≤ p.y.over) × (p.y.over ≤ (height - 1) * p.y.under))))
