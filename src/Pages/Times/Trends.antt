-- ===== src/Pages/Times/Trends.antt =====
-- When an event was seen, and whether it increases, as the pages of
-- frontend/src/routes/_authenticated ask it.
use Prim.Native.Nat.{◌/◌}
use jvm_scout.Base.{
  ℕ, ◌*◌, ◌≤◌, ◌<◌, ◌≡◌, ◌↔◌, refl, subst, arith, List, Option, none, some, true, inl, inr, Text,
  text_dec, lookup, length, take, drop, sum_by, Option-cases,
}
use jvm_scout.Client.Endpoints.{FingerprintSeries}
use jvm_scout.Client.Series.{is_series_increasing, is_series_increasing_lem}
use jvm_scout.Pages.Times.{is_at_least}

-- There is a time, and it is not before the cutoff.
abbrev pub IsSince : Option ℕ → ℕ → Type 0
IsSince time cutoff = (t : ℕ) × ((time ≡ some t) × (cutoff ≤ t))

pub is_at_least-IsSince :
    (time : Option ℕ) (cutoff : ℕ) → (is_at_least time cutoff ≡ true) ↔ IsSince time cutoff
is_at_least-IsSince none cutoff =
    (λ h. absurd (ground arith), λ (t, (e, le)). absurd (ground arith))
is_at_least-IsSince (some t) cutoff =
    (λ h. (t, (refl, ground arith)), λ (u, (e, le)). ground (arith, e, le))

-- The event of the id has a series of two buckets or more, and those from the middle on sum to more
-- than 1.2 times the others.
abbrev pub IsIncreasing : List (Text × FingerprintSeries) → Text → Type 0
IsIncreasing series id =
    (s : FingerprintSeries) × ((lookup id series ≡ some s)
      × ((2 ≤ length s.buckets)
          × (6 * sum_by (λ b. b) (take (length s.buckets / 2) s.buckets)
              < 5 * sum_by (λ b. b) (drop (length s.buckets / 2) s.buckets))))

abbrev pub buckets_found : Option FingerprintSeries → Option (List ℕ)
buckets_found found = elim found [ none ↦ none | some s ↦ some s.buckets ]

pub is_series_increasing-IsIncreasing :
    (series : List (Text × FingerprintSeries)) (id : Text)
    → (is_series_increasing (buckets_found (lookup id series)) ≡ true) ↔ IsIncreasing series id
unfolding is_series_increasing
is_series_increasing-IsIncreasing series id = elim (Option-cases (lookup id series)) [
  | inl e ↦ (λ h. absurd (ground (arith, e, h)), λ (s, (k, _)). absurd (ground (arith, e, k)))
  | inr (s, e) ↦
      let means = is_series_increasing_lem s.buckets in
      rw e (
        λ h. (s, (refl, means.0 h)),
        λ (u, (k, up)).
            let same : u ≡ s = cc in
            subst (λ (v : FingerprintSeries). is_series_increasing (some v.buckets) ≡ true) same
              ((is_series_increasing_lem u.buckets).1 up),
      )
]
