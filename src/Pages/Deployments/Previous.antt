-- ===== src/Pages/Deployments/Previous.antt =====
-- The deployment that `computeDeltas` of frontend/src/routes/_authenticated/deployments.tsx compares
-- with.
use jvm_scout.Base.{
  ℕ, zero, suc, ◌≡◌, ◌≢◌, refl, sym, ◌∙◌, subst, ◌⊎◌, ◌↔◌, inl, inr, arith, [], ◌∷◌, List, Option,
  none, some, Bool, true, false, Option-cases, is_gt, IsOrder, Sorted, sort_by, sort_by-Sorted,
  Mem-sort_by, Text, text_dec, nat_dec, map, lookup, has, set_of, has-set_of, has_of_Mem, get_elem?,
  All, All-Mem, All-of_Mem, Mem, Mem-map, Mem-filter, Nodup, compare, ◌==◌,
}
use jvm_scout.Client.Groups.{group_from_lem, grouped, with_key, lookup-from_keys}
use jvm_scout.Client.Applications.{DeploymentRow}
use jvm_scout.Pages.Deployments.Neighbours.{
  find_index-found, find_index-get_elem?, find_index-first, Nodup-same, self, directly_before,
}
use jvm_scout.Pages.Deployments.{find_index, before, by_start, series_by_app, previous_of}

lookup-map :
    {K V W : Type 0} ⦃dec : Discrete K⦄ (h : V → W) (k : K) (m : List (K × V))
    → lookup k (map (λ g. (g.0, h g.1)) m) ≡ elim (lookup k m) [ none ↦ none | some v ↦ some (h v) ]
unfolding lookup
lookup-map h k [] = refl
lookup-map h k ((j, v) ∷ m) = ground (arith, lookup-map h k m)

module _ (time_of : Text → Option ℕ) where
  -- The deployment's start is a time.
  abbrev pub HasTime : DeploymentRow → Type 0
  HasTime d = (t : ℕ) × (time_of d.started_at ≡ some t)

  by_start-times :
      (a b : DeploymentRow) (t u : ℕ)
      → time_of a.started_at ≡ some t
      → time_of b.started_at ≡ some u
      → by_start time_of a b ≡ compare t u
  by_start-times a b t u e f = rw (e, f) refl

  by_start-IsOrder : IsOrder HasTime (by_start time_of)
  by_start-IsOrder = record {
    asymm = λ x y p q h.
        let there = by_start-times x y p.0 q.0 p.1 q.1 in
        let back = by_start-times y x q.0 p.0 q.1 p.1 in ground arith;
    trans = λ x y z p q r h k.
        let one = by_start-times x y p.0 q.0 p.1 q.1 in
        let two = by_start-times y z q.0 r.0 q.1 r.1 in
        let both = by_start-times x z p.0 r.0 p.1 r.1 in ground arith;
  }

  abbrev of_app : List DeploymentRow → Text → List DeploymentRow
  of_app ds app = with_key (λ (x : DeploymentRow). x.application_id) app ds

  lookup-series_by_app :
      (ds : List DeploymentRow) (d : DeploymentRow)
      → Mem d ds
      → lookup d.application_id (series_by_app time_of ds)
        ≡ some (sort_by (by_start time_of) (of_app ds d.application_id))
  unfolding series_by_app
  lookup-series_by_app ds d m =
      let key = λ (x : DeploymentRow). x.application_id in
      let apps = map key ds in
      let there : has d.application_id (set_of apps) ≡ true =
        has-set_of d.application_id apps ∙ has_of_Mem d.application_id apps (Mem-map key d ds m) in
      let found : lookup d.application_id (grouped key ds) ≡ some (of_app ds d.application_id) =
        lookup-from_keys (λ k. with_key key k ds) d.application_id (set_of apps)
        ∙ (rw there refl) in
      rw (group_from_lem key ds) (
        lookup-map (sort_by (by_start time_of)) d.application_id (grouped key ds) ∙ (rw found refl))

before-some :
    (series : List DeploymentRow) (o : Option ℕ) (p : DeploymentRow)
    → before series o ≡ some p
    → (i : ℕ) × ((o ≡ some (suc i)) × (get_elem? series i ≡ some p))
before-some series none p e = cc
before-some series (some zero) p e = cc
before-some series (some (suc i)) p e = (i, (refl, e))

module _ (time_of : Text → Option ℕ) (ds : List DeploymentRow) (timed : All (HasTime time_of) ds)
    (apart : Nodup (map (λ (x : DeploymentRow). x.id) ds)) (d : DeploymentRow)
    (here : Mem d ds) where
  -- What the deployment to compare with is: of the same application, and in the order of their starts
  -- directly before.
  pub record IsPrevious (p : DeploymentRow) : Type 0 where
    pub there : Mem p ds
    pub same_app : p.application_id ≡ d.application_id
    pub other : p.id ≢ d.id
    pub in_order : is_gt (by_start time_of p d) ≡ false
    pub none_between :
        (x : DeploymentRow)
        → Mem x ds
        → x.application_id ≡ d.application_id
        → (is_gt (by_start time_of x p) ≡ false) ⊎ (is_gt (by_start time_of d x) ≡ false)

  abbrev series : List DeploymentRow
  series = sort_by (by_start time_of) (of_app time_of ds d.application_id)

  Mem-series :
      (x : DeploymentRow) → Mem x series ↔ (Mem x ds × (x.application_id ≡ d.application_id))
  Mem-series x =
      let sorted = Mem-sort_by (by_start time_of) x (of_app time_of ds d.application_id) in
      let kept = Mem-filter (λ (r : DeploymentRow). r.application_id == d.application_id) x ds in
      (
        λ m. let (k, e) = kept.0 (sorted.0 m) in (k, ground arith),
        λ (m, e). sorted.1 (kept.1 (m, ground arith)),
      )

  series-HasTime : All (HasTime time_of) series
  series-HasTime =
      All-of_Mem (HasTime time_of) series
        (λ x m. All-Mem (HasTime time_of) ds x timed ((Mem-series x).0 m).0)

  series-Sorted : Sorted (by_start time_of) series
  series-Sorted =
      sort_by-Sorted (HasTime time_of) (by_start time_of) (by_start-IsOrder time_of)
        (of_app time_of ds d.application_id)
        (All-of_Mem (HasTime time_of) (of_app time_of ds d.application_id) (λ x m.
          All-Mem (HasTime time_of) ds x timed
            ((Mem-filter (λ (r : DeploymentRow). r.application_id == d.application_id) x ds).0
              m).0))

  abbrev is_this : DeploymentRow → Bool
  is_this x = x.id == d.id

  previous_of-before : previous_of time_of ds d ≡ before series (find_index is_this series)
  unfolding previous_of
  previous_of-before = rw (lookup-series_by_app time_of ds d here) refl

  same_of_id : (z : DeploymentRow) → Mem z series → is_this z ≡ true → z ≡ d
  same_of_id z m k =
      Nodup-same (λ (x : DeploymentRow). x.id) ds z d apart ((Mem-series z).0 m).0 here
        (ground arith)

  previous_of-IsPrevious : (p : DeploymentRow) → previous_of time_of ds d ≡ some p → IsPrevious p
  previous_of-IsPrevious p e =
      let (i, (index, found)) =
        before-some series (find_index is_this series) p (sym previous_of-before ∙ e) in
      let (z, r) =
        directly_before is_this (HasTime time_of) (by_start time_of) (by_start-IsOrder time_of)
          series i p series-HasTime series-Sorted index found in
      let same = same_of_id z r.found r.passes in
      record {
        there = ((Mem-series p).0 r.there).0;
        same_app = ((Mem-series p).0 r.there).1;
        other = λ q. let fails = r.fails in ground arith;
        in_order = subst (λ y. is_gt (by_start time_of p y) ≡ false) same r.in_order;
        none_between = λ x m app. elim (r.none_between x ((Mem-series x).1 (m, app))) [
          | inl before_it ↦ inl before_it
          | inr after ↦ inr (subst (λ y. is_gt (by_start time_of y x) ≡ false) same after)
        ];
      }

  before-none :
      (o : Option ℕ)
      → before series o ≡ none
      → (o ≡ none) ⊎ ((o ≡ some 0) ⊎ ((i : ℕ) × ((o ≡ some (suc i)) × (get_elem? series i ≡ none))))
  before-none none e = inl refl
  before-none (some zero) e = inr (inl refl)
  before-none (some (suc i)) e = inr (inr (i, (refl, e)))

  here-series : Mem d series
  here-series = (Mem-series d).1 (here, refl)

  first_in :
      (xs : List DeploymentRow)
      → Sorted (by_start time_of) xs
      → ((z : DeploymentRow) → Mem z xs → is_this z ≡ true → z ≡ d)
      → find_index is_this xs ≡ some 0
      → (x : DeploymentRow) → Mem x xs
      → is_gt (by_start time_of d x) ≡ false
  first_in [] s same e x m = absurd m
  first_in (z ∷ zs) (b, s) same e x m =
      let it = same z (inl refl) (find_index-first is_this z zs e) in
      elim m [
        | inl is_z ↦
            subst (λ y. is_gt (by_start time_of d y) ≡ false) (sym (is_z ∙ it))
              (self is_this (HasTime time_of) (by_start time_of) (by_start-IsOrder time_of) d
                (All-Mem (HasTime time_of) ds d timed here))
        | inr k ↦
            subst (λ y. is_gt (by_start time_of y x) ≡ false) it
              (All-Mem (λ y. is_gt (by_start time_of z y) ≡ false) zs x b k)
      ]

  first_of-none :
      previous_of time_of ds d ≡ none
      → (x : DeploymentRow) → Mem x ds
      → x.application_id ≡ d.application_id
      → is_gt (by_start time_of d x) ≡ false
  first_of-none e x m app =
      let (j, index) = find_index-found is_this series d here-series (ground arith) in
      elim (before-none (find_index is_this series) (sym previous_of-before ∙ e)) [
        | inl nowhere ↦ cc
        | inr (inl first) ↦
            first_in series series-Sorted same_of_id first x ((Mem-series x).1 (m, app))
        | inr (inr (i, (later, missing))) ↦
            let (w, there) = find_index-get_elem? is_this series i later in cc
      ]

  -- The deployment is the first of its application.
  abbrev pub IsFirst : Type 0
  IsFirst =
      (x : DeploymentRow)
      → Mem x ds
      → x.application_id ≡ d.application_id
      → is_gt (by_start time_of d x) ≡ false

  abbrev pub IsComparison : Option DeploymentRow → Type 0
  IsComparison none = IsFirst
  IsComparison (some p) = IsPrevious p

  -- A deployment is compared with the one of the same application that starts directly before it:
  -- every other one of the application starts no later than that, or no earlier than this. It is
  -- compared with none only if no other one of the application starts before it. The deployments
  -- have different ids and a time of start.
  pub previous_of-IsComparison : IsComparison (previous_of time_of ds d)
  previous_of-IsComparison = elim (Option-cases (previous_of time_of ds d)) [
    | inl nothing ↦ subst IsComparison (sym nothing) (first_of-none nothing)
    | inr (p, found) ↦ subst IsComparison (sym found) (previous_of-IsPrevious p found)
  ]
