-- ===== src/Pages/Events/Filters.antt =====
-- What the filters of the events page mean.
use jvm_scout.Base.{
  ◌≡◌, ◌≢◌, refl, subst, ◌↔◌, ◌⊎◌, inl, inr, arith, [], ◌∷◌, List, Option, some, Bool, true, false,
  Option-cases, ℕ, Text, Comparator, includes, text_dec, is_empty, has, Mem, Mem_of_has, has_of_Mem,
  map, Mem-set_of, Mem-filter, Mem-map, Mem_of_map, if◌then◌else◌,
}
use jvm_scout.Client.Events.{EventRow, active}
use jvm_scout.Client.Applications.{ApplicationRow}
use jvm_scout.Adapter.Tables.{status_text}
use jvm_scout.Pages.Times.{same_environment, is_active}
use jvm_scout.Pages.Times.Same.{same_environment_lem, is_active_lem}
use jvm_scout.Pages.Events.Search.{Chip, no_chip, new, increasing, unresolved, Search, csv_set}
use jvm_scout.Pages.Events.Rows.{
  PageData, env_apps, env_app_ids, has_status, has_words, none_chosen, is_among, has_deployment,
}

pub is_among-Mem : (set : List Text) (v : Text) → (is_among set v ≡ true) ↔ ((set ≡ []) ⊎ Mem v set)
is_among-Mem [] v = (λ h. inl refl, λ h. refl)
is_among-Mem (x ∷ xs) v = (
  λ h. inr (Mem_of_has v (x ∷ xs) h),
  λ h. elim h [ inl e ↦ cc | inr m ↦ has_of_Mem v (x ∷ xs) m ],
)

-- The event is introduced by one of the deployments.
abbrev pub IsIntroduced : List Text → EventRow → Type 0
IsIntroduced set e =
    (d : Text) × ((e.introduced_by_deployment_id ≡ some d) × ((is_empty d ≡ false) × Mem d set))

pub has_deployment-IsIntroduced :
    (set : List Text) (e : EventRow)
    → (has_deployment set e ≡ true) ↔ ((set ≡ []) ⊎ IsIntroduced set e)
unfolding has_deployment
has_deployment-IsIntroduced [] e = (λ h. inl refl, λ h. refl)
has_deployment-IsIntroduced (x ∷ xs) e = elim (Option-cases e.introduced_by_deployment_id) [
  | inl nowhere ↦ simp (nowhere) (λ h. cc, λ h. elim h [ inl e ↦ cc | inr (y, (p, k)) ↦ cc ])
  | inr (d, by) ↦ simp (by) (
    λ h. inr (d, (refl, (ground arith, Mem_of_has d (x ∷ xs) (ground arith)))),
    λ h. elim h [
      | inl e ↦ cc
      | inr (y, (p, (full, m))) ↦
          let e : y ≡ d = cc in
          let chosen : has d (x ∷ xs) ≡ true =
            subst (λ z. has z (x ∷ xs) ≡ true) e (has_of_Mem y (x ∷ xs) m) in
          let filled : is_empty d ≡ false = subst (λ z. is_empty z ≡ false) e full in ground arith
    ],
  )
]

-- An application of the environment is the event's.
abbrev pub IsInEnvironment : PageData → EventRow → Type 0
IsInEnvironment d e =
    (a : ApplicationRow) × (Mem a d.apps
      × ((a.environment ≡ d.environment) × (a.id ≡ e.application_id)))

pub env_app_ids-IsInEnvironment :
    (d : PageData) (e : EventRow)
    → (has e.application_id (env_app_ids d) ≡ true) ↔ IsInEnvironment d e
env_app_ids-IsInEnvironment d e =
    let here = λ (a : ApplicationRow). same_environment a.environment d.environment in
    let ids = map (λ (a : ApplicationRow). a.id) (env_apps d) in
    (
      λ h.
          let (a, (m, k)) =
            Mem_of_map (λ (a : ApplicationRow). a.id) e.application_id (env_apps d)
              ((Mem-set_of e.application_id ids).0
                (Mem_of_has e.application_id (env_app_ids d) h)) in
          let (there, same) = (Mem-filter here a d.apps).0 m in
          (a, (there, ((same_environment_lem a.environment d.environment).0 same, k))),
      λ (a, (m, (same, k))). has_of_Mem e.application_id (env_app_ids d) (
          (Mem-set_of e.application_id ids).1 (
            subst (λ i. Mem i ids) k
              (Mem-map (λ (x : ApplicationRow). x.id) a (env_apps d)
                ((Mem-filter here a d.apps).1
                  (m, (same_environment_lem a.environment d.environment).1 same))))),
    )

-- The event's state is one of those chosen; without a choice, or with the chip `unresolved`, it is
-- active.
abbrev pub HasStatus : Chip → List Text → EventRow → Type 0
HasStatus chip set e =
    ((e.status ≡ active) × ((chip ≡ unresolved) ⊎ (set ≡ [])))
    ⊎ ((chip ≢ unresolved) × Mem (status_text e.status) set)

abbrev is_chosen_status : List Text → EventRow → Bool
is_chosen_status set e = if none_chosen set then is_active e else has (status_text e.status) set

is_chosen_status-HasStatus :
    (chip : Chip) (set : List Text) (e : EventRow)
    → chip ≢ unresolved
    → (is_chosen_status set e ≡ true) ↔ HasStatus chip set e
is_chosen_status-HasStatus chip [] e other = (
  λ h. inl ((is_active_lem e).0 h, inr refl),
  λ h. elim h [ inl (a, k) ↦ (is_active_lem e).1 a | inr (k, m) ↦ absurd m ],
)
is_chosen_status-HasStatus chip (x ∷ xs) e other = (
  λ h. inr (other, Mem_of_has (status_text e.status) (x ∷ xs) h),
  λ h. elim h [
    | inl (a, k) ↦ elim k [ inl same ↦ absurd (other same) | inr nothing ↦ cc ]
    | inr (k, m) ↦ has_of_Mem (status_text e.status) (x ∷ xs) m
  ],
)

pub has_status-HasStatus :
    (s : Search) (e : EventRow) → (has_status s e ≡ true) ↔ HasStatus s.chip (csv_set s.status) e
unfolding has_status
has_status-HasStatus s e =
    elim s.chip
      as (λ chip.
        ((elim chip [
          | unresolved ↦ is_active e
          | no_chip ↦ is_chosen_status (csv_set s.status) e
          | new ↦ is_chosen_status (csv_set s.status) e
          | increasing ↦ is_chosen_status (csv_set s.status) e
        ])
          ≡ true)
        ↔ HasStatus chip (csv_set s.status) e) [
          | unresolved ↦ (
            λ h. inl ((is_active_lem e).0 h, inl refl),
            λ h. elim h [ inl (a, k) ↦ (is_active_lem e).1 a | inr (k, m) ↦ absurd (k refl) ],
          )
          | no_chip ↦ is_chosen_status-HasStatus no_chip (csv_set s.status) e (λ h. cc)
          | new ↦ is_chosen_status-HasStatus new (csv_set s.status) e (λ h. cc)
          | increasing ↦ is_chosen_status-HasStatus increasing (csv_set s.status) e (λ h. cc)
        ]

-- The name or the location contains the words, in any case.
abbrev pub HasWords : (Text → Text) → Text → EventRow → Type 0
HasWords lower q e =
    (q ≡ [])
    ⊎ ((includes (lower q) (lower e.name) ≡ true) ⊎ (includes (lower q) (lower e.location) ≡ true))

pub has_words-HasWords :
    (lower : Text → Text) (locale : Comparator Text) (time_of : Text → Option ℕ) (q : Text)
    (e : EventRow)
    → (has_words lower locale time_of q e ≡ true) ↔ HasWords lower q e
unfolding has_words
has_words-HasWords lower locale time_of [] e = (λ h. inl refl, λ h. refl)
has_words-HasWords lower locale time_of (c ∷ q) e =
    (λ h. inr (ground arith), λ h. elim h [ inl nothing ↦ cc | inr found ↦ ground arith ])
