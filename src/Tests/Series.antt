-- ===== src/Tests/Series.antt =====
-- The theorem about `isSeriesIncreasing` at a concrete input.
use jvm_scout.Base.{
  ℕ, ◌*◌, ◌/◌, ◌<◌, ◌≤◌, ◌≡◌, ◌∷◌, [], List, some, true, ◌↔◌, length, take, drop, sum_by,
}
use jvm_scout.Client.Series.{is_series_increasing, is_series_increasing_lem}

abbrev rising : List ℕ
rising = 1 ∷ 2 ∷ 3 ∷ 4 ∷ []

is_series_increasing_lem_example : (is_series_increasing (some rising) ≡ true) ↔ (
    (2 ≤ 4)
    × (6 * sum_by (λ b. b) (take (length rising / 2) rising)
        < 5 * sum_by (λ b. b) (drop (length rising / 2) rising)))
is_series_increasing_lem_example = is_series_increasing_lem rising
