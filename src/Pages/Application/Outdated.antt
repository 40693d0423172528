-- ===== src/Pages/Application/Outdated.antt =====
-- The mark `Update available` in the table of servers of
-- frontend/src/routes/_authenticated/applications.$id.tsx.
use jvm_scout.Base.{
  ℕ, ◌-◌, ◌≡◌, sym, ◌∙◌, ap, subst, inl, inr, ◌↔◌, arith, [], ◌∷◌, List, Option, some, Bool-cases,
  true, false, is_gt, is_lt, map, length, length-sort_by, get_elem?, get_elem?_of_lt, get_elem?-Mem,
  sort_by, sort_by-Sorted, Sorted-last, Mem-sort_by, All, All-of_Mem, All-Mem, Mem, Mem-map,
  Mem-filter, Mem_of_map, Text, text_dec, ◌or_else◌, ◌==◌, codes,
}
use jvm_scout.Client.Events.{EventRow}
use jvm_scout.Client.Applications.{ApplicationRow, DeploymentRow}
use jvm_scout.Client.Servers.{ServerRow}
use jvm_scout.Shell.{TimeRange}
use jvm_scout.Pages.Versions.{compare_semver}
use jvm_scout.Pages.Versions.Order.{compare_semver-IsOrder, compare_semver-flip}
use jvm_scout.Pages.Application.{latest_of, is_outdated, view_for}

-- No version is newer.
abbrev IsLatest : Text → List Text → Type 0
IsLatest l vs = Mem l vs × All (λ v. is_gt (compare_semver v l) ≡ false) vs

every : (vs : List Text) → All (λ (v : Text). Unit {0}) vs
every vs = All-of_Mem (λ v. Unit {0}) vs (λ v m. tt)

latest_of-IsLatest : (vs : List Text) (v : Text) → Mem v vs → IsLatest (latest_of vs) vs
unfolding latest_of
latest_of-IsLatest [] v m = absurd m
latest_of-IsLatest (w ∷ ws) v m =
    let sorted = sort_by compare_semver (w ∷ ws) in
    let same = length-sort_by compare_semver (w ∷ ws) in
    let (l, found) = get_elem?_of_lt sorted (length (w ∷ ws) - 1) (omega arith) in
    let is_last : get_elem? sorted (length sorted - 1) ≡ some l =
      ap (λ n. get_elem? sorted (n - 1)) same ∙ found in
    let last =
      Sorted-last (λ (t : Text). Unit {0}) compare_semver compare_semver-IsOrder sorted l
        (every sorted)
        (sort_by-Sorted (λ (t : Text). Unit {0}) compare_semver compare_semver-IsOrder (w ∷ ws)
          (every (w ∷ ws)))
        is_last in
    subst (λ o. IsLatest (o or_else codes "0.0.0") (w ∷ ws)) (sym found)
      (
        (Mem-sort_by compare_semver l (w ∷ ws)).0 (get_elem?-Mem sorted _ l found),
        All-of_Mem (λ u. is_gt (compare_semver u l) ≡ false) (w ∷ ws)
            (λ u k.
              All-Mem (λ u. is_gt (compare_semver u l) ≡ false) sorted u last
                ((Mem-sort_by compare_semver u (w ∷ ws)).1 k)),
      )

-- What is older than something is older than the latest.
older_than_latest :
    (s t l : Text)
    → is_lt (compare_semver s t) ≡ true
    → is_gt (compare_semver t l) ≡ false
    → is_lt (compare_semver s l) ≡ true
older_than_latest s t l h k = elim (Bool-cases (is_gt (compare_semver l s))) [
  | inl older ↦ let flipped = compare_semver-flip l s in ground arith
  | inr at_least ↦
      let between = compare_semver-IsOrder.trans t l s tt tt tt k at_least in
      let flipped = compare_semver-flip s t in absurd (ground arith)
]

-- On the page of an application a server is marked as outdated exactly if some server of the fleet
-- runs a newer version of the agent.
pub is_outdated-newer :
    (time_of : Text → Option ℕ) (now : ℕ) (range : TimeRange) (apps : List ApplicationRow)
    (events : List EventRow) (servers : List ServerRow) (deployments : List DeploymentRow)
    (id : Text) (app : ApplicationRow) (s : ServerRow)
    → Mem s (view_for time_of now range apps events servers deployments id app).servers
    → (is_outdated
          (view_for time_of now range apps events servers deployments id app).latest_version
          s
        ≡ true)
      ↔ ((t : ServerRow) × (Mem t servers
            × (is_lt (compare_semver s.agent_version t.agent_version) ≡ true)))
unfolding view_for is_outdated
is_outdated-newer time_of now range apps events servers deployments id app s m =
    let version = λ (t : ServerRow). t.agent_version in
    let versions = map version servers in
    let there = ((Mem-filter (λ (t : ServerRow). t.application_id == id) s servers).0 m).0 in
    let (here, newest) =
      latest_of-IsLatest versions s.agent_version (Mem-map version s servers there) in
    (
      λ h.
          let (t, (k, e)) = Mem_of_map version (latest_of versions) servers here in
          (t, (k, subst (λ v. is_lt (compare_semver s.agent_version v) ≡ true) (sym e) h)),
      λ (t, (k, h)). older_than_latest s.agent_version t.agent_version (latest_of versions) h (
          All-Mem (λ v. is_gt (compare_semver v (latest_of versions)) ≡ false) versions
            t.agent_version newest (Mem-map version t servers k)),
    )
