-- ===== src/Pages/Times/Same.antt =====
-- The comparison of environments, and the test of an active event, in frontend/src/routes/_authenticated.
use jvm_scout.Base.{◌≡◌, refl, ap, false, arith, true, ◌↔◌, subst}
use jvm_scout.Client.Events.{EventRow, Status, active, resolved, hidden}
use jvm_scout.Client.Applications.{Environment, production, staging, development}
use jvm_scout.Pages.Times.{same_environment, is_active}

same_environment_sound : (a b : Environment) → same_environment a b ≡ true → a ≡ b
same_environment_sound production production h = refl
same_environment_sound production staging h = absurd (ground arith)
same_environment_sound production development h = absurd (ground arith)
same_environment_sound staging production h = absurd (ground arith)
same_environment_sound staging staging h = refl
same_environment_sound staging development h = absurd (ground arith)
same_environment_sound development production h = absurd (ground arith)
same_environment_sound development staging h = absurd (ground arith)
same_environment_sound development development h = refl

same_environment_refl : (a : Environment) → same_environment a a ≡ true
same_environment_refl production = refl
same_environment_refl staging = refl
same_environment_refl development = refl

-- Two environments are the same exactly if they are equal.
pub same_environment_lem : (a b : Environment) → (same_environment a b ≡ true) ↔ (a ≡ b)
same_environment_lem a b = (
  same_environment_sound a b,
  λ e. subst (λ c. same_environment a c ≡ true) e (same_environment_refl a),
)

active_status : (e : EventRow) → is_active e ≡ true → e.status ≡ active
active_status e h = status_active e.status h
  where
    status_active :
        (s : Status)
        → (elim s [ active ↦ true | resolved ↦ false | hidden ↦ false ]) ≡ true
        → s ≡ active
    status_active active h = refl
    status_active resolved h = absurd (ground arith)
    status_active hidden h = absurd (ground arith)

active_is_active : (e : EventRow) → e.status ≡ active → is_active e ≡ true
active_is_active e h =
    ap (λ (s : Status). elim s [ active ↦ true | resolved ↦ false | hidden ↦ false ]) h

-- An event is active exactly if its status is.
pub is_active_lem : (e : EventRow) → (is_active e ≡ true) ↔ (e.status ≡ active)
is_active_lem e = (active_status e, active_is_active e)
