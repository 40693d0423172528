-- ===== src/Pages/Mutations.antt =====
-- What the mutations and lists of alerts.tsx and settings.tsx share: a query through the builder of
-- frontend/src/integrations/collector/adapter.ts, and `if (error) throw error`.
pub mod Laws
use jvm_scout.Base.{ℕ, ◌∷◌, [], List, Option, none, some, Bool, Text, codes}
use jvm_scout.Client.Values.{Row, str}
use jvm_scout.Client.Http.{Platform, Effect, ClientState, Result, ok, err, pure, ◌>>=◌, ◌>>◌}
use jvm_scout.Adapter.Query.{Query, Filter}
use jvm_scout.Adapter.Builder.{from, select, insert, update, delete, eq, order}
use jvm_scout.Adapter.Run.{Data, Outcome, run}
use jvm_scout.Pages.Fetch.{data_rows, select_from}

-- `if (error) throw error;`
abbrev pub checked :
    {World : Type 0} → Outcome × ClientState World → Result Data × ClientState World
checked (o, s) = elim o.error [ none ↦ (ok o.value, s) | some e ↦ (err e, s) ]

module _ {World : Type 0} (p : Platform World) (number : Text → Option ℕ)
    (read_table : Text → List Filter → Effect World (List Row)) where
  abbrev pub perform : Query → Effect World Data
  perform q s = checked (run p number read_table q s)

  unfoldable pub list_rows : Text → Effect World (List Row)
  list_rows table = do d ← perform (select_from table); pure (data_rows d)

  unfoldable pub list_ordered : Text → Text → Bool → Effect World (List Row)
  list_ordered table col ascending = do
    d ← perform (order col (some ascending) (select_from table))
    pure (data_rows d)

  unfoldable pub update_by_id : Text → Row → Text → Effect World (Unit {0})
  update_by_id table patch id = do
    _ ← perform (eq (codes "id") (str id) (update patch (from table)))
    pure tt

  unfoldable pub delete_by_id : Text → Text → Effect World (Unit {0})
  delete_by_id table id = do _ ← perform (eq (codes "id") (str id) (delete (from table))); pure tt

  unfoldable pub insert_row : Text → Row → Effect World (Unit {0})
  insert_row table r = do _ ← perform (insert (r ∷ []) (from table)); pure tt
