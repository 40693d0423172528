-- ===== src/Adapter/Run.antt =====
-- frontend/src/integrations/collector/adapter.ts: `run`. The tables that are derived from exceptions
-- enter by `read_table`, which stands for `loadReadTable`.
use jvm_scout.Base.{
  ℕ, ◌∷◌, [], ◌++◌, List, Option, none, some, Text, codes, take, sort_by, if◌then◌else◌,
}
use jvm_scout.Client.Values.{Row}
use jvm_scout.Client.Http.{
  Platform, ClientState, Effect, Result, ok, err, Error, message, need, pure, throw, ◌>>=◌, ◌>>◌,
}
use jvm_scout.Adapter.Query.{
  Query, Filter, OrderBy, Op, Mode, is_config, apply_filters, compare_rows,
}
use jvm_scout.Adapter.Store.{config_list, matching_config_ids, insert_all, update_all, delete_all}

-- `data` of a result; `nothing` is null. An inserted row is what the collector replied.
pub data Data : Type 0 where
  rows : List Row → Data
  inserted : List (Option Row) → Data
  row : Row → Data
  nothing : Data

pub record Outcome : Type 0 where
  pub value : Data
  pub error : Option Error

abbrev pub last_row : Option Row → Data
last_row none = nothing
last_row (some r) = row r

-- The `payload` of an update.
abbrev pub patch_of : List Row → Row
patch_of [] = []
patch_of (r ∷ rs) = r

abbrev pub ordered : (Text → Option ℕ) → Option OrderBy → List Row → List Row
ordered number none rs = rs
ordered number (some o) rs = sort_by (compare_rows number o) rs

abbrev pub limited : Option ℕ → List Row → List Row
limited none rs = rs
limited (some n) rs = take n rs

-- The rows of a select, of the rows of its table.
unfoldable pub selected : (Text → Option ℕ) → Query → List Row → List Row
selected number q rs = limited q.limit_n (ordered number q.order_by (apply_filters rs q.filters))

-- The end of a select, by the mode.
abbrev pub finish : {World : Type 0} → Mode → List Row → Effect World Data
finish Mode.many rs = pure (rows rs)
finish Mode.single [] = throw (message (codes "no rows found (single)"))
finish Mode.single (r ∷ rs) = pure (row r)
finish Mode.maybe_single [] = pure nothing
finish Mode.maybe_single (r ∷ rs) = pure (row r)

abbrev pub unsupported : {World A : Type 0} → Text → Text → Effect World A
unsupported op table = throw (message (op ++ (codes " not supported on " ++ table)))

-- The `try`/`catch`: an error becomes the result's, and the promise does not reject.
abbrev pub caught : {World : Type 0} → Result Data × ClientState World → Outcome × ClientState World
caught (r, s) = elim r [
  | ok d ↦ (record { value = d; error = none }, s)
  | err e ↦ (record { value = nothing; error = some e }, s)
]

module _ {World : Type 0} (p : Platform World) (number : Text → Option ℕ)
    (read_table : Text → List Filter → Effect World (List Row)) where
  unfoldable pub source_rows : Query → Effect World (List Row)
  source_rows q =
      if is_config q.table
      then (do listed ← config_list p q.table; need listed)
      else read_table q.table q.filters

  unfoldable pub run_op : Op → Query → Effect World Data
  run_op Op.insert q =
      if is_config q.table
      then (do made ← insert_all p q.table q.payload; pure (inserted made))
      else unsupported (codes "insert") q.table
  run_op Op.update q =
      if is_config q.table
      then (do
        ids ← matching_config_ids p q.table q.filters
        last ← update_all p q.table (patch_of q.payload) none ids
        pure (last_row last))
      else unsupported (codes "update") q.table
  run_op Op.delete q =
      if is_config q.table
      then (do
        ids ← matching_config_ids p q.table q.filters
        delete_all p q.table ids
        pure nothing)
      else unsupported (codes "delete") q.table
  run_op Op.select q = do rs ← source_rows q; finish q.mode (selected number q rs)

  unfoldable pub run : Query → ClientState World → Outcome × ClientState World
  run q s = caught (run_op q.op q s)
