-- ===== src/Pages/Deployments.antt =====
-- frontend/src/routes/_authenticated/deployments.tsx: `computeDeltas` and the rows of the page.
pub mod Neighbours
pub mod Previous
pub mod Marks
use jvm_scout.Base.{
  ℕ, zero, suc, ◌+◌, ◌*◌, ◌∷◌, [], List, Option, none, some, Bool, false, ◌&&◌, ◌||◌, Comparator,
  Text, text_dec, map, filter, find, length, get_elem?, sum_by, lookup, sort_by, ltb, leb,
  if◌then◌else◌, ◌==◌, ◌or_else◌,
}
use jvm_scout.Base.Int.{ℤ, difference}
use jvm_scout.Client.Groups.{group_from}
use jvm_scout.Client.Events.{EventRow}
use jvm_scout.Client.Applications.{Environment, ApplicationRow, DeploymentRow}
use jvm_scout.Pages.Times.{same_environment, is_resolved, compare_times, index_by}

pub data Badge : Type 0 where
  regression improved stable : Badge

pub record DeploymentDelta : Type 0 where
  pub deployment : DeploymentRow
  pub app : Option ApplicationRow
  pub prev : Option DeploymentRow
  pub new_errors : ℕ
  pub resolved_errors : ℕ
  pub hits_this : ℕ
  pub hits_prev : ℕ
  pub hits_delta : ℤ
  pub badge : Badge

-- `xs.findIndex(test)`, from the index `i` on; none is -1.
abbrev pub find_index_from : {A : Type 0} → (A → Bool) → ℕ → List A → Option ℕ
find_index_from test i [] = none
find_index_from test i (x ∷ xs) =
    let rest = find_index_from test (suc i) xs in if test x then some i else rest

abbrev pub find_index : {A : Type 0} → (A → Bool) → List A → Option ℕ
find_index test xs = find_index_from test 0 xs

-- `idx > 0 ? series[idx - 1] : undefined`
abbrev pub before : List DeploymentRow → Option ℕ → Option DeploymentRow
before series none = none
before series (some zero) = none
before series (some (suc i)) = get_elem? series i

abbrev pub is_introduced_by : Text → EventRow → Bool
is_introduced_by id e = elim e.introduced_by_deployment_id [ none ↦ false | some d ↦ d == id ]

abbrev pub introduced_by : List EventRow → Option DeploymentRow → List EventRow
introduced_by events none = []
introduced_by events (some d) = filter (is_introduced_by d.id) events

abbrev pub hits_of_events : List EventRow → ℕ
hits_of_events es = sum_by (λ e. e.hit_count) es

-- `hitsDelta < -Math.max(10, hitsPrev * 0.1)`
abbrev pub is_much_less : ℕ → ℕ → Bool
is_much_less this prev = ltb (this + 10) prev && ltb (10 * this + prev) (10 * prev)

unfoldable pub badge_of : (new_errors resolved_errors this prev : ℕ) → Badge
badge_of new_errors resolved_errors this prev =
    if ltb 0 new_errors && leb prev this
    then regression
    else if ltb new_errors resolved_errors || is_much_less this prev
    then improved
    else stable

-- `time_of` is `getTime` of a text.
module _ (time_of : Text → Option ℕ) where
  abbrev pub by_start : Comparator DeploymentRow
  by_start a b = compare_times (time_of a.started_at) (time_of b.started_at)

  -- The deployments of each application, in the order of their start.
  unfoldable pub series_by_app : List DeploymentRow → List (Text × List DeploymentRow)
  series_by_app deployments =
      map (λ g. (g.0, sort_by by_start g.1)) (group_from (λ d. d.application_id) [] deployments)

  -- The deployment of the same application before `d`.
  unfoldable pub previous_of : List DeploymentRow → DeploymentRow → Option DeploymentRow
  previous_of deployments d =
      let series = lookup d.application_id (series_by_app deployments) or_else [] in
      before series (find_index (λ x. x.id == d.id) series)

  unfoldable pub delta_of :
      List DeploymentRow → List ApplicationRow → List EventRow → DeploymentRow → DeploymentDelta
  delta_of deployments apps events d =
      let prev = previous_of deployments d in
      let this_events = introduced_by events (some d) in
      let prev_events = introduced_by events prev in
      let resolved_errors = length (filter is_resolved prev_events) in
      record {
        deployment = d;
        app = lookup d.application_id (index_by (λ a. a.id) apps);
        prev = prev;
        new_errors = length this_events;
        resolved_errors = resolved_errors;
        hits_this = hits_of_events this_events;
        hits_prev = hits_of_events prev_events;
        hits_delta = difference (hits_of_events this_events) (hits_of_events prev_events);
        badge =
            badge_of (length this_events) resolved_errors (hits_of_events this_events)
              (hits_of_events prev_events);
      }

  unfoldable pub compute_deltas :
      List DeploymentRow → List ApplicationRow → List EventRow → List DeploymentDelta
  compute_deltas deployments apps events = map (delta_of deployments apps events) deployments

  abbrev pub is_in : Environment → DeploymentDelta → Bool
  is_in environment r = elim r.app [
    | none ↦ false
    | some a ↦ same_environment a.environment environment
  ]

  -- The rows of the page, the latest first.
  unfoldable pub deployment_rows :
      Environment → List DeploymentRow → List ApplicationRow → List EventRow → List DeploymentDelta
  deployment_rows environment deployments apps events =
      sort_by (λ a b. by_start b.deployment a.deployment)
        (filter (is_in environment) (compute_deltas deployments apps events))

  -- frontend/src/routes/_authenticated/deployments.$id.tsx: the row of the deployment that is shown.
  unfoldable pub deployment_detail :
      Text → List DeploymentRow → List ApplicationRow → List EventRow → Option DeploymentDelta
  deployment_detail id deployments apps events =
      find (λ r. r.deployment.id == id) (compute_deltas deployments apps events)
