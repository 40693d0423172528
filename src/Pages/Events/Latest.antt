-- ===== src/Pages/Events/Latest.antt =====
-- The deployment that frontend/src/routes/_authenticated/events.tsx keeps for each application.
use jvm_scout.Base.{
  ◌≡◌, ◌↔◌, refl, subst, sym, ◌∙◌, ap, inl, inr, ◌⊎◌, arith, ◌∷◌, [], List, Option, none, some,
  Bool, true, false, Bool-cases, Text, text_dec, map, filter, lookup, insert, lookup-insert,
  is_empty, All, Mem, Mem-filter, All-Mem, All-of_Mem, Nodup, str_lt, str_lt_irrefl, str_lt_asymm,
  str_lt_trans, str_lt_connex, ◌==◌, if◌then◌else◌,
}
use jvm_scout.Client.Applications.{DeploymentRow}
use jvm_scout.Pages.Times.{index_by}
use jvm_scout.Pages.Events.ById.{IsIndex, index_from-IsIndex}
use jvm_scout.Pages.Events.Rows.{started_at_of, is_later, latest_from, latest_deploy_by_app}

-- The deployments of an application.
abbrev pub of_app : Text → List DeploymentRow → List DeploymentRow
of_app app ds = filter (λ y. y.application_id == app) ds

-- The id is that of one of the deployments, and none of them started later; there is no id exactly
-- where there is no deployment.
abbrev pub IsLatestIn : List DeploymentRow → Option Text → Type 0
IsLatestIn ds none = ds ≡ []
IsLatestIn ds (some id) =
    (x : DeploymentRow) × (Mem x ds
      × ((x.id ≡ id) × All (λ y. str_lt x.started_at y.started_at ≡ false) ds))

abbrev pub IsLatest : Text → List DeploymentRow → Option Text → Type 0
IsLatest app ds o = IsLatestIn (of_app app ds) o

not_after_trans : (a b c : Text) → str_lt a b ≡ false → str_lt b c ≡ false → str_lt a c ≡ false
not_after_trans a b c h k = ground (
  arith,
  str_lt_connex a b,
  str_lt_connex b c,
  str_lt_trans b a c,
  str_lt_trans a c b,
  str_lt_asymm a c,
  str_lt_trans c b a,
)

module _ (app : Text) (by_id : List (Text × DeploymentRow)) where
  -- The id that is kept after a deployment of the application.
  abbrev kept : Option Text → DeploymentRow → Option Text
  kept o d = if is_later by_id o d then some d.id else o

  kept-IsLatest :
      (o : Option Text) (d : DeploymentRow) (done : List DeploymentRow)
      → (d.application_id == app) ≡ true
      → IsIndex by_id done
      → All (λ x. is_empty x.id ≡ false) done
      → IsLatest app done o
      → IsLatest app (d ∷ done) (kept o d)
  kept-IsLatest none d done here index full h =
      rw (here, h) (d, (inl refl, (refl, (str_lt_irrefl d.started_at, tt))))
  kept-IsLatest (some cur) d done here index full (x, (m, (e, latest))) =
      let inside = (Mem-filter (λ y. y.application_id == app) x done).0 m in
      let found : lookup cur by_id ≡ some x =
        subst (λ i. lookup i by_id ≡ some x) e
          (All-Mem (λ z. lookup z.id by_id ≡ some z) done x index inside.0) in
      let filled : is_empty cur ≡ false =
        subst (λ i. is_empty i ≡ false) e
          (All-Mem (λ z. is_empty z.id ≡ false) done x full inside.0) in
      let started : started_at_of by_id cur ≡ x.started_at =
        ap (λ (o : Option DeploymentRow). elim o [ none ↦ [] | some z ↦ z.started_at ]) found in
      let test : (b : Bool)
          → str_lt x.started_at d.started_at ≡ b
          → is_later by_id (some cur) d ≡ b =
        λ b after. rw filled (ap (λ u. str_lt u d.started_at) started ∙ after) in
      let first : of_app app (d ∷ done) ≡ d ∷ of_app app done = rw here refl in
      elim (Bool-cases (str_lt x.started_at d.started_at)) [
        | inl after ↦
            let taken : kept (some cur) d ≡ some d.id =
              ap (λ b. if b then some d.id else some cur) (test true after) in
            rw (first, taken)
              (
                d,
                (
                  inl refl,
                  (
                    refl,
                    (
                      str_lt_irrefl d.started_at,
                      All-of_Mem (λ y. str_lt d.started_at y.started_at ≡ false) (of_app app done)
                          (λ y n.
                            not_after_trans d.started_at x.started_at y.started_at
                              (str_lt_asymm x.started_at d.started_at after)
                              (All-Mem (λ z. str_lt x.started_at z.started_at ≡ false)
                                (of_app app done) y latest n)),
                    ),
                  ),
                ),
              )
        | inr not_after ↦
            let stays : kept (some cur) d ≡ some cur =
              ap (λ b. if b then some d.id else some cur) (test false not_after) in
            rw (first, stays) (x, (inr m, (e, (not_after, latest))))
      ]

  lookup-chosen :
      (k id : Text) (b : Bool) (m : List (Text × Text))
      → lookup app (if b then insert k id m else m)
        ≡ (if k == app then (if b then some id else lookup app m) else lookup app m)
  lookup-chosen k id true m = lookup-insert app k id m
  lookup-chosen k id false m = ground arith

  abbrev next : List (Text × Text) → DeploymentRow → List (Text × Text)
  next m d =
      if is_later by_id (lookup d.application_id m) d then insert d.application_id d.id m else m

  next-IsLatest :
      (m : List (Text × Text)) (d : DeploymentRow) (done : List DeploymentRow)
      → IsIndex by_id done
      → All (λ x. is_empty x.id ≡ false) done
      → IsLatest app done (lookup app m)
      → IsLatest app (d ∷ done) (lookup app (next m d))
  next-IsLatest m d done index full h =
      let chosen =
        lookup-chosen d.application_id d.id (is_later by_id (lookup d.application_id m) d) m in
      elim (Bool-cases (d.application_id == app)) [
        | inl e ↦
            let same : d.application_id ≡ app = ground (arith, e) in
            let taken : lookup app (next m d) ≡ kept (lookup app m) d =
              chosen
              ∙ rw e (
                  ap (λ k. if is_later by_id (lookup k m) d then some d.id else lookup app m)
                    same) in
            subst (IsLatest app (d ∷ done)) (sym taken)
              (kept-IsLatest (lookup app m) d done e index full h)
        | inr e ↦
            let left : lookup app (next m d) ≡ lookup app m = chosen ∙ rw e refl in
            let others : of_app app (d ∷ done) ≡ of_app app done = rw e refl in rw (left, others) h
      ]

-- Lists with the same elements have the same latest id.
IsLatestIn-same :
    (ds es : List DeploymentRow) (o : Option Text)
    → ((x : DeploymentRow) → Mem x ds ↔ Mem x es)
    → IsLatestIn ds o
    → IsLatestIn es o
IsLatestIn-same ds [] none same h = refl
IsLatestIn-same ds (e ∷ es) none same h = absurd (subst (λ l. Mem e l) h ((same e).1 (inl refl)))
IsLatestIn-same ds es (some id) same (x, (m, (e, latest))) = (
  x,
  (
    (same x).0 m,
    (
      e,
      All-of_Mem (λ y. str_lt x.started_at y.started_at ≡ false) es
          (λ y n.
            All-Mem (λ y. str_lt x.started_at y.started_at ≡ false) ds y latest ((same y).1 n)),
    ),
  ),
)

module _ (app : Text) (all : List DeploymentRow) (by_id : List (Text × DeploymentRow))
    (index : IsIndex by_id all)
    (full : All (λ (x : DeploymentRow). is_empty x.id ≡ false) all) where
  latest_from-IsLatest :
      (m : List (Text × Text)) (done rest : List DeploymentRow)
      → ((x : DeploymentRow) → Mem x all ↔ (Mem x rest ⊎ Mem x done))
      → IsLatest app done (lookup app m)
      → IsLatest app all (lookup app (latest_from by_id m rest))
  unfolding latest_from
  latest_from-IsLatest m done [] same h =
      let mine = λ (y : DeploymentRow). y.application_id == app in
      IsLatestIn-same (of_app app done) (of_app app all) (lookup app m)
        (λ x. (
          λ k.
              let (there, p) = (Mem-filter mine x done).0 k in
              (Mem-filter mine x all).1 ((same x).1 (inr there), p),
          λ k.
              let (there, p) = (Mem-filter mine x all).0 k in
              (Mem-filter mine x done).1
                (elim ((same x).0 there) [ inl gone ↦ absurd gone | inr before ↦ before ], p),
        ))
        h
  latest_from-IsLatest m done (d ∷ rest) same h =
      latest_from-IsLatest (next app by_id m d) (d ∷ done) rest
        (λ x. (
          λ k. elim ((same x).0 k) [
            | inl later ↦ elim later [ inl e ↦ inr (inl e) | inr there ↦ inl there ]
            | inr there ↦ inr (inr there)
          ],
          λ k. (same x).1 (elim k [
            | inl there ↦ inl (inr there)
            | inr now ↦ elim now [ inl e ↦ inl (inl e) | inr there ↦ inr there ]
          ]),
        ))
        (next-IsLatest app by_id m d done
          (All-of_Mem (λ z. lookup z.id by_id ≡ some z) done
            (λ z n. All-Mem (λ z. lookup z.id by_id ≡ some z) all z index ((same z).1 (inr n))))
          (All-of_Mem (λ z. is_empty z.id ≡ false) done
            (λ z n. All-Mem (λ z. is_empty z.id ≡ false) all z full ((same z).1 (inr n))))
          h)

-- Where the deployments have different ids, none of them empty, the page keeps for an application the
-- id of one of its deployments that no other of them started after, and an id is kept exactly if the
-- application has a deployment.
pub latest_deploy_by_app-IsLatest :
    (app : Text) (deployments : List DeploymentRow)
    → Nodup (map (λ (d : DeploymentRow). d.id) deployments)
    → All (λ (d : DeploymentRow). is_empty d.id ≡ false) deployments
    → IsLatest app deployments (lookup app (latest_deploy_by_app deployments))
unfolding latest_deploy_by_app lookup
latest_deploy_by_app-IsLatest app deployments distinct full =
    latest_from-IsLatest app deployments (index_by (λ d. d.id) deployments)
      (index_from-IsIndex [] deployments distinct) full [] [] deployments
      (λ x. (λ m. inl m, λ k. elim k [ inl m ↦ m | inr gone ↦ absurd gone ])) refl
