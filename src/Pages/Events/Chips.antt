-- ===== src/Pages/Events/Chips.antt =====
-- What the time range and the chips of the events page ask of an event.
use jvm_scout.Base.{
  ℕ, ◌-◌, ◌≤◌, ◌≡◌, ◌↔◌, ◌⊎◌, refl, ap, subst, arith, Option, none, some, Bool, true, false, inl,
  inr, Text, text_dec, Comparator, lookup, is_empty, Bool-cases, ◌==◌, ◌&&◌, not, nat_dec,
}
use jvm_scout.Client.Events.{EventRow}
use jvm_scout.Client.Series.{is_series_increasing}
use jvm_scout.Shell.{TimeRange, hour, day, week, month, custom}
use jvm_scout.Pages.Times.Trends.{
  IsSince, IsIncreasing, is_at_least-IsSince, is_series_increasing-IsIncreasing,
}
use jvm_scout.Pages.Events.Search.{Chip, no_chip, new, increasing, unresolved, Search}
use jvm_scout.Pages.Events.Rows.{
  PageData, buckets_of, is_recent, cutoff_at, has_chip, latest_deploy_by_app,
}

-- The event was last seen in the length of time before now; a clock that has not passed that length
-- leaves nothing out.
abbrev pub IsWithin : (now length : ℕ) → Option ℕ → Type 0
IsWithin now length seen = (now ≤ length) ⊎ IsSince seen (now - length)

-- An hour, a day, a week or thirty days, in milliseconds; a custom range leaves nothing out.
abbrev pub IsRecent : (now : ℕ) → TimeRange → Option ℕ → Type 0
IsRecent now hour seen = IsWithin now 3600000 seen
IsRecent now day seen = IsWithin now 86400000 seen
IsRecent now week seen = IsWithin now 604800000 seen
IsRecent now month seen = IsWithin now 2592000000 seen
IsRecent now custom seen = Unit {0}

-- The chip `new` asks for the deployment that is kept as the latest of the event's application, and
-- `increasing` for a series that increases; the others ask for nothing here.
abbrev pub IsAsked : PageData → Chip → EventRow → Type 0
IsAsked d new e =
    (by : Text) × ((e.introduced_by_deployment_id ≡ some by)
      × ((is_empty by ≡ false)
          × (lookup e.application_id (latest_deploy_by_app d.deployments) ≡ some by)))
IsAsked d increasing e = IsIncreasing d.series e.id
IsAsked d no_chip e = Unit {0}
IsAsked d unresolved e = Unit {0}

module _ (lower : Text → Text) (locale : Comparator Text) (time_of : Text → Option ℕ) where
  is_recent-IsWithin :
      (now length : ℕ) (e : EventRow)
      → (is_recent lower locale time_of (now - length) e ≡ true)
        ↔ IsWithin now length (time_of e.last_seen)
  unfolding is_recent
  is_recent-IsWithin now length e =
      let means = is_at_least-IsSince (time_of e.last_seen) (now - length) in
      elim (Bool-cases (now - length == 0)) [
        | inl young ↦ (λ h. inl (ground (arith, young)), λ h. ground (arith, young))
        | inr old ↦ rw old (
          λ h. inr (means.0 h),
          λ h. elim h [ inl le ↦ absurd (ground (arith, old, le)) | inr since ↦ means.1 since ],
        )
      ]

  custom_recent : (e : EventRow) → is_recent lower locale time_of 0 e ≡ true
  unfolding is_recent
  custom_recent e = ground arith

  pub is_recent-IsRecent :
      (now : ℕ) (range : TimeRange) (e : EventRow)
      → (is_recent lower locale time_of (cutoff_at lower locale time_of now range) e ≡ true)
        ↔ IsRecent now range (time_of e.last_seen)
  is_recent-IsRecent now hour e = is_recent-IsWithin now 3600000 e
  is_recent-IsRecent now day e = is_recent-IsWithin now 86400000 e
  is_recent-IsRecent now week e = is_recent-IsWithin now 604800000 e
  is_recent-IsRecent now month e = is_recent-IsWithin now 2592000000 e
  is_recent-IsRecent now custom e = (λ h. tt, λ h. custom_recent e)

abbrev is_newest : Option Text → Option Text → Bool
is_newest latest introduced = elim introduced [
  | none ↦ false
  | some by ↦ not (is_empty by) && elim latest [ none ↦ false | some l ↦ l == by ]
]

is_newest-lem :
    (latest introduced : Option Text)
    → (is_newest latest introduced ≡ true)
      ↔ ((by : Text) × ((introduced ≡ some by) × ((is_empty by ≡ false) × (latest ≡ some by))))
is_newest-lem latest none = (λ h. absurd (ground arith), λ (by, (e, _)). absurd (ground arith))
is_newest-lem none (some by) =
    (λ h. absurd (ground arith), λ (b, (_, (_, e))). absurd (ground arith))
is_newest-lem (some l) (some by) = (
  λ h. (by, (refl, (ground arith, (let e : l ≡ by = ground arith in ap some e)))),
  λ (b, (e, (full, k))).
      let same : b ≡ by = cc in
      let here : l ≡ by = cc in
      let filled : is_empty by ≡ false = subst (λ z. is_empty z ≡ false) same full in
      ground (arith, here, filled),
)

pub has_chip-IsAsked :
    (d : PageData) (s : Search) (e : EventRow) → (has_chip d s e ≡ true) ↔ IsAsked d s.chip e
unfolding has_chip
has_chip-IsAsked d s e =
    elim s.chip
      as (λ chip.
        ((elim chip [
          | new ↦
              is_newest (lookup e.application_id (latest_deploy_by_app d.deployments))
                e.introduced_by_deployment_id
          | increasing ↦ is_series_increasing (buckets_of d.series e.id)
          | no_chip ↦ true
          | unresolved ↦ true
        ])
          ≡ true)
        ↔ IsAsked d chip e) [
          | new ↦
              is_newest-lem (lookup e.application_id (latest_deploy_by_app d.deployments))
                e.introduced_by_deployment_id
          | increasing ↦ is_series_increasing-IsIncreasing d.series e.id
          | no_chip ↦ (λ h. tt, λ h. refl)
          | unresolved ↦ (λ h. tt, λ h. refl)
        ]
