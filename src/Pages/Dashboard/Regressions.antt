-- ===== src/Pages/Dashboard/Regressions.antt =====
-- The list of new and increasing events.
use jvm_scout.Base.{
  ℕ, ◌≤◌, ◌<◌, ◌≡◌, refl, none, some, false, ◌∷◌, ◌&&◌, has, ltb, lookup, is_gt, All-Mem,
  Mem_of_map, Mem_of_has, Mem-set_of, take, true, inl, inr, ◌⊎◌, arith, [], List, Comparator, Text,
  text_dec, map, Mem-take, take-Nodup, Sorted-take, length, length-take-le, values, All, All-of_Mem,
  Mem, Mem-filter, Mem-sort_by, Nodup, Sorted, IsOrder, sort_by, sort_by-Sorted, sort_by-Nodup,
  Option,
}
use jvm_scout.Client.Endpoints.{FingerprintSeries}
use jvm_scout.Client.Events.{EventRow, active}
use jvm_scout.Client.Applications.{ApplicationRow}
use jvm_scout.Pages.Times.Same.{same_environment_lem, is_active_lem}
use jvm_scout.Pages.Times.Trends.{
  IsSince, IsIncreasing, is_at_least-IsSince, is_series_increasing-IsIncreasing,
}
use jvm_scout.Pages.Times.{same_environment, is_active, is_at_least, index_from, index_by}
use jvm_scout.Pages.Times.Index.{
  index_from-IsKeyed, index_from-Nodup, values-Nodup, Mem-values-index_from,
}
use jvm_scout.Pages.Dashboard.{
  DashboardData, env_apps, env_app_ids, env_events, hits_in_period, period_events, trend_up_for,
  increasing_events, new_events, new_and_increasing, most_hits_first,
}

most_hits_first-IsOrder :
    (series : List (Text × FingerprintSeries))
    → IsOrder (λ (e : EventRow). Unit {0}) (most_hits_first series)
most_hits_first-IsOrder series = record {
  asymm = λ x y p q h. ground arith;
  trans = λ x y z p q r h k. ground arith;
}

abbrev pub hits_of_found : Option FingerprintSeries → ℕ
hits_of_found none = 0
hits_of_found (some s) = s.total

hits_found :
    (found : Option FingerprintSeries)
    → (elim found [ none ↦ 0 | some s ↦ s.total ]) ≡ hits_of_found found
hits_found none = refl
hits_found (some s) = refl

module _ (locale : Comparator Text) (time_of : Text → Option ℕ) (cutoff : ℕ)
    (d : DashboardData) where
  -- The hits of the event's series in the period, none without a series.
  abbrev pub hits_listed : EventRow → ℕ
  hits_listed e = hits_of_found (lookup e.id d.series)

  abbrev pub IsInEnvironment : EventRow → Type 0
  IsInEnvironment e =
      (a : ApplicationRow) × (Mem a d.apps
        × ((a.environment ≡ d.environment) × (a.id ≡ e.application_id)))

  -- The event is new since the cutoff, or increasing.
  abbrev pub IsChanged : EventRow → Type 0
  IsChanged e = IsSince (time_of e.first_seen) cutoff ⊎ IsIncreasing d.series e.id

  pub record IsListed (e : EventRow) : Type 0 where
    pub event : Mem e d.events
    pub status : e.status ≡ active
    pub environment : IsInEnvironment e
    pub occurred : 0 < hits_listed e
    pub change : IsChanged e

  -- No event has more hits than one before it.
  abbrev pub IsFalling : List EventRow → Type 0
  IsFalling [] = Unit {0}
  IsFalling (e ∷ es) = All (λ x. hits_listed x ≤ hits_listed e) es × IsFalling es

  same_hits : (e : EventRow) → hits_in_period d.series e ≡ hits_listed e
  same_hits e = hits_found (lookup e.id d.series)

  occurred_of : (e : EventRow) → ltb 0 (hits_in_period d.series e) ≡ true → 0 < hits_listed e
  occurred_of e h = ground (arith, same_hits e)

  IsFalling-of_Sorted : (es : List EventRow) → Sorted (most_hits_first d.series) es → IsFalling es
  IsFalling-of_Sorted [] h = tt
  IsFalling-of_Sorted (e ∷ es) (least, h) = (
    All-of_Mem _ es (λ x m.
        let le = All-Mem (λ y. is_gt (most_hits_first d.series e y) ≡ false) es x least m in
        ground (arith, same_hits e, same_hits x)),
    IsFalling-of_Sorted es h,
  )

  abbrev new_by_id : List (Text × EventRow)
  new_by_id = index_by (λ e. e.id) (new_events locale time_of cutoff d)

  -- The map of the new and the increasing events.
  abbrev by_id : List (Text × EventRow)
  by_id = index_from (λ e. e.id) new_by_id (increasing_events d)

  by_id-Nodup : Nodup (map (λ (e : EventRow). e.id) (values by_id))
  by_id-Nodup =
      let news = new_events locale time_of cutoff d in
      values-Nodup (λ (e : EventRow). e.id) by_id
        (index_from-IsKeyed (λ e. e.id) new_by_id (increasing_events d)
          (index_from-IsKeyed (λ e. e.id) [] news tt))
        (index_from-Nodup (λ e. e.id) new_by_id (increasing_events d)
          (index_from-Nodup (λ e. e.id) [] news tt))

  Mem-by_id :
      (e : EventRow)
      → Mem e (values by_id)
      → Mem e (new_events locale time_of cutoff d) ⊎ Mem e (increasing_events d)
  Mem-by_id e m =
      elim (Mem-values-index_from (λ (x : EventRow). x.id) e new_by_id (increasing_events d) m) [
        | inl old ↦
            elim (Mem-values-index_from (λ (x : EventRow). x.id) e []
              (new_events locale time_of cutoff d) old) [
                | inl none_yet ↦ absurd none_yet
                | inr new ↦ inl new
              ]
        | inr increasing ↦ inr increasing
      ]

  Mem-new_and_increasing :
      (e : EventRow)
      → Mem e (new_and_increasing locale time_of cutoff d)
      → Mem e (period_events d)
        × ((is_at_least (time_of e.first_seen) cutoff ≡ true) ⊎ (trend_up_for d.series e ≡ true))
  unfolding new_and_increasing new_events increasing_events
  Mem-new_and_increasing e m =
      elim (Mem-by_id e
        ((Mem-sort_by (most_hits_first d.series) e (values by_id)).0 (Mem-take e 8 _ m))) [
          | inl new ↦
              let h =
                (Mem-filter (λ x. is_at_least (time_of x.first_seen) cutoff) e (period_events d)).0
                  new in
              (h.0, inl h.1)
          | inr up ↦
              let h = (Mem-filter (trend_up_for d.series) e (period_events d)).0 up in
              (h.0, inr h.1)
        ]

  environment_of : (e : EventRow) → has e.application_id (env_app_ids d) ≡ true → IsInEnvironment e
  unfolding env_apps
  environment_of e h =
      let here = λ (a : ApplicationRow). same_environment a.environment d.environment in
      let ids = map (λ (a : ApplicationRow). a.id) (env_apps d) in
      let (a, (m, k)) =
        Mem_of_map (λ (a : ApplicationRow). a.id) e.application_id (env_apps d)
          ((Mem-set_of e.application_id ids).0 (Mem_of_has e.application_id (env_app_ids d) h)) in
      let (there, same) = (Mem-filter here a d.apps).0 m in
      (a, (there, ((same_environment_lem a.environment d.environment).0 same, k)))

  period_events-IsListed : (e : EventRow) → Mem e (period_events d) → IsChanged e → IsListed e
  unfolding period_events env_events
  period_events-IsListed e m change =
      let (m2, hits) = (Mem-filter (λ x. ltb 0 (hits_in_period d.series x)) e (env_events d)).0 m in
      let (there, h) =
        (Mem-filter (λ x. has x.application_id (env_app_ids d) && is_active x) e d.events).0 m2 in
      record {
        event = there;
        status = (is_active_lem e).0 (ground arith);
        environment = environment_of e (ground arith);
        occurred = occurred_of e (ground arith);
        change = change;
      }

  new_and_increasing-IsListed :
      (e : EventRow) → Mem e (new_and_increasing locale time_of cutoff d) → IsListed e
  new_and_increasing-IsListed e m =
      let (period, change) = Mem-new_and_increasing e m in
      period_events-IsListed e period (elim change [
        | inl new ↦ inl ((is_at_least-IsSince (time_of e.first_seen) cutoff).0 new)
        | inr up ↦ inr ((is_series_increasing-IsIncreasing d.series e.id).0 up)
      ])

  -- The dashboard lists at most eight events, each once, and none has more hits in the period than one
  -- listed before it. Each is an active event of an application of the environment, has a hit in the
  -- period, and was first seen at the cutoff or later, or has buckets that sum to more than 1.2 times
  -- as much from the middle on.
  pub new_and_increasing_lem :
      (length (new_and_increasing locale time_of cutoff d) ≤ 8)
      × Nodup (map (λ (e : EventRow). e.id) (new_and_increasing locale time_of cutoff d))
      × IsFalling (new_and_increasing locale time_of cutoff d)
      × All IsListed (new_and_increasing locale time_of cutoff d)
  unfolding new_and_increasing
  new_and_increasing_lem =
      let sorted = sort_by (most_hits_first d.series) (values by_id) in
      (
        length-take-le 8 sorted,
        take-Nodup (λ (e : EventRow). e.id) 8 sorted
            (sort_by-Nodup (most_hits_first d.series) (λ (e : EventRow). e.id) (values by_id)
              by_id-Nodup),
        IsFalling-of_Sorted (take 8 sorted) (
            Sorted-take (most_hits_first d.series) 8 sorted (
              sort_by-Sorted (λ _. Unit {0}) (most_hits_first d.series)
                (most_hits_first-IsOrder d.series) (values by_id)
                (All-of_Mem (λ _. Unit {0}) (values by_id) (λ e m. tt)))),
        All-of_Mem IsListed (new_and_increasing locale time_of cutoff d)
            new_and_increasing-IsListed,
      )
