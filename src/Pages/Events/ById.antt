-- ===== src/Pages/Events/ById.antt =====
-- `deploysById` of frontend/src/routes/_authenticated/events.tsx: what the map of the deployments holds.
use jvm_scout.Base.{
  ◌≡◌, ◌≢◌, refl, sym, ◌∙◌, inl, inr, arith, ◌∷◌, [], List, some, Bool-cases, Text, text_dec, map,
  lookup, insert, lookup-insert, All, Mem, Nodup, ◌==◌,
}
use jvm_scout.Client.Applications.{DeploymentRow}
use jvm_scout.Pages.Times.{index_from}

-- The map finds each deployment by its id.
abbrev pub IsIndex : List (Text × DeploymentRow) → List DeploymentRow → Type 0
IsIndex by_id ds = All (λ d. lookup d.id by_id ≡ some d) ds

lookup-insert_other :
    {V : Type 0} (k j : Text) (v : V) (m : List (Text × V))
    → k ≢ j
    → lookup k (insert j v m) ≡ lookup k m
lookup-insert_other k j v m other = elim (Bool-cases (j == k)) [
  | inl e ↦ absurd (other (sym (ground (arith, e))))
  | inr e ↦ lookup-insert k j v m ∙ rw e refl
]

lookup-insert_same :
    {V : Type 0} (k : Text) (v : V) (m : List (Text × V)) → lookup k (insert k v m) ≡ some v
lookup-insert_same k v m = lookup-insert k k v m ∙ ground arith

lookup-index_from_other :
    (k : Text) (m : List (Text × DeploymentRow)) (ds : List DeploymentRow)
    → ¬ Mem k (map (λ (d : DeploymentRow). d.id) ds)
    → lookup k (index_from (λ d. d.id) m ds) ≡ lookup k m
unfolding index_from
lookup-index_from_other k m [] new = refl
lookup-index_from_other k m (d ∷ ds) new =
    lookup-index_from_other k (insert d.id d m) ds (λ there. new (inr there))
    ∙ lookup-insert_other k d.id d m (λ e. new (inl e))

pub index_from-IsIndex :
    (m : List (Text × DeploymentRow)) (ds : List DeploymentRow)
    → Nodup (map (λ (d : DeploymentRow). d.id) ds)
    → IsIndex (index_from (λ d. d.id) m ds) ds
unfolding index_from
index_from-IsIndex m [] n = tt
index_from-IsIndex m (d ∷ ds) (new, n) = (
  lookup-index_from_other d.id (insert d.id d m) ds new ∙ lookup-insert_same d.id d m,
  index_from-IsIndex (insert d.id d m) ds n,
)
