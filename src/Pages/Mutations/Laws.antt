-- ===== src/Pages/Mutations/Laws.antt =====
-- The mutations of the pages are single calls of the collector.
use jvm_scout.Base.{
  ℕ, ◌≡◌, refl, ◌∷◌, [], List, Option, true, Text, text_dec, nat_dec, text_discrete, ℕ_discrete,
}
use jvm_scout.Client.Values.{Row, to_text}
use jvm_scout.Client.Http.{Platform, Effect, ClientState, Result, ok, err, resume, pure, ◌>>=◌}
use jvm_scout.Adapter.Query.{Filter, is_config}
use jvm_scout.Adapter.Builder.{from, insert, update, delete, eq}
use jvm_scout.Adapter.Store.{
  shortcut, matching_config_ids, config_insert, config_update, config_delete, insert_all,
  update_all, delete_all,
}
use jvm_scout.Adapter.Run.{Data, caught, nothing, last_row, inserted, run_op, run}
use jvm_scout.Pages.Mutations.{checked, update_by_id, delete_by_id, insert_row}

module _ {World : Type 0} where
  -- An error passes through the outcome of `run` unchanged, and so does a success.
  drop_value :
      {A : Type 0} (f : A → Data) (x : Result A × ClientState World)
      → resume (λ _. pure tt) (checked (caught (resume (λ a. pure (f a)) x)))
        ≡ resume (λ _. pure (tt {0})) x
  drop_value f (ok a, s) = refl
  drop_value f (err e, s) = refl

  drop_unit : (x : Result (Unit {0}) × ClientState World) → resume (λ _. pure tt) x ≡ x
  drop_unit (ok a, s) = refl
  drop_unit (err e, s) = refl

  resume-resume :
      {A B C : Type 0} (f : A → Effect World B) (k : B → Effect World C)
      (x : Result A × ClientState World)
      → resume k (resume f x) ≡ resume (λ a t. resume k (f a t)) x
  resume-resume f k (ok a, s) = refl
  resume-resume f k (err e, s) = refl

module _ {World : Type 0} (p : Platform World) (number : Text → Option ℕ)
    (read_table : Text → List Filter → Effect World (List Row)) where
  -- On a configuration table the mutation by id sends one DELETE for that id, with its result.
  delete_by_id-config_delete :
      (table id : Text) (s : ClientState World)
      → is_config table ≡ true
      → delete_by_id p number read_table table id s ≡ config_delete p table id s
  unfolding delete_by_id run run_op eq delete from matching_config_ids shortcut delete_all to_text
      text_discrete ℕ_discrete
  delete_by_id-config_delete table id s h = rw h (
      rw (drop_value (λ _. nothing) (resume (λ _. pure tt) (config_delete p table id s)))
        (rw (drop_unit (config_delete p table id s)) (drop_unit (config_delete p table id s))))

  update_by_id-config_update :
      (table id : Text) (patch : Row) (s : ClientState World)
      → is_config table ≡ true
      → update_by_id p number read_table table patch id s
        ≡ (do _ ← config_update p table id patch; pure tt) s
  unfolding update_by_id run run_op eq update from matching_config_ids shortcut update_all to_text
      text_discrete ℕ_discrete
  update_by_id-config_update table id patch s h = rw h (
      rw
        (resume-resume (λ made. pure made) (λ made. pure (last_row made))
          (config_update p table id patch s))
        (drop_value last_row (config_update p table id patch s)))

  insert_row-config_insert :
      (table : Text) (r : Row) (s : ClientState World)
      → is_config table ≡ true
      → insert_row p number read_table table r s ≡ (do _ ← config_insert p table r; pure tt) s
  unfolding insert_row run run_op insert from insert_all
  insert_row-config_insert table r s h = rw h (
      rw
        (resume-resume (λ made. pure (made ∷ [])) (λ made. pure (inserted made))
          (config_insert p table r s))
        (drop_value (λ made. inserted (made ∷ [])) (config_insert p table r s)))

  -- On a configuration table the pages' mutations are single calls of the collector: an update and a
  -- delete by id send one request for that id and list no rows first, an insert sends one request,
  -- and an error of the call is the mutation's error.
  pub mutations_lem :
      (table id : Text) (r : Row) (s : ClientState World)
      → is_config table ≡ true
      → (delete_by_id p number read_table table id s ≡ config_delete p table id s)
        × (update_by_id p number read_table table r id s
            ≡ (do _ ← config_update p table id r; pure tt) s)
        × (insert_row p number read_table table r s ≡ (do _ ← config_insert p table r; pure tt) s)
  mutations_lem table id r s h = (
    delete_by_id-config_delete table id s h,
    update_by_id-config_update table id r s h,
    insert_row-config_insert table r s h,
  )
