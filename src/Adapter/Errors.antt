-- ===== src/Adapter/Errors.antt =====
-- How a query fails: on a table that is derived, and on `single()` without a row.
use jvm_scout.Base.{
  ℕ, ◌≡◌, refl, subst, sym, ◌⊎◌, inl, inr, List-cases, ap, ◌∙◌, ◌∷◌, [], ◌++◌, List, Option, none,
  some, false, ◌≢◌, Text, codes,
}
use jvm_scout.Client.Values.{Row}
use jvm_scout.Client.Http.{Platform, ClientState, Effect, message, ok, err, >>=-ok}
use jvm_scout.Adapter.Query.{Query, Filter, Op, Mode, is_config}
use jvm_scout.Adapter.Run.{nothing, row, source_rows, selected, run_op, run, finish, caught}

abbrev pub op_name : Op → Text
op_name Op.select = codes "select"
op_name Op.insert = codes "insert"
op_name Op.update = codes "update"
op_name Op.delete = codes "delete"

module _ {World : Type 0} (p : Platform World) (number : Text → Option ℕ)
    (read_table : Text → List Filter → Effect World (List Row)) where
  run_op_unsupported :
      (op : Op) (q : Query) (s : ClientState World)
      → is_config q.table ≡ false
      → op ≢ Op.select
      → run_op p number read_table op q s
        ≡ (err (message (op_name op ++ (codes " not supported on " ++ q.table))), s)
  unfolding run_op
  run_op_unsupported Op.insert q s h w = rw h
  run_op_unsupported Op.update q s h w = rw h
  run_op_unsupported Op.delete q s h w = rw h
  run_op_unsupported Op.select q s h w = absurd (w refl)

  -- A write to a table that is no configuration table yields an error that names the operation and
  -- the table, and changes nothing: no request is sent.
  run_unsupported :
      (q : Query) (s : ClientState World)
      → is_config q.table ≡ false
      → q.op ≢ Op.select
      → run p number read_table q s ≡ (
        record {
          value = nothing;
          error = some (message (op_name q.op ++ (codes " not supported on " ++ q.table)));
        },
        s,
      )
  unfolding run
  run_unsupported q s h w = ap caught (run_op_unsupported q.op q s h w)

  module _ (q : Query) (s s' : ClientState World) (rs : List Row)
      (read : source_rows p number read_table q s ≡ (ok rs, s')) where
    pub run-select :
        q.op ≡ Op.select
        → run p number read_table q s ≡ caught (finish q.mode (selected number q rs) s')
    unfolding run run_op
    run-select e =
        subst
          (λ op.
            caught (run_op p number read_table op q s)
            ≡ caught (finish q.mode (selected number q rs) s'))
          (sym e)
          (ap caught (
            >>=-ok (source_rows p number read_table q)
              (λ rows. finish q.mode (selected number q rows)) read))

    -- `single()` fails exactly where no row is selected, and otherwise gives the first.
    pub run-single :
        q.op ≡ Op.select
        → q.mode ≡ Mode.single
        → ((selected number q rs ≡ [])
            × (run p number read_table q s).0
              ≡ record { value = nothing; error = some (message (codes "no rows found (single)")) })
          ⊎ ((r : Row) × (rest : List Row) × (selected number q rs ≡ r ∷ rest)
              × ((run p number read_table q s).0 ≡ record { value = row r; error = none }))
    run-single e m = elim (List-cases (selected number q rs)) [
      | inl empty ↦ inl (empty, ap (λ r. r.0) (run-select e) ∙ (rw (empty, m) refl))
      | inr (r, rest, found) ↦
          inr (r, rest, found, ap (λ r. r.0) (run-select e) ∙ (rw (found, m) refl))
    ]
