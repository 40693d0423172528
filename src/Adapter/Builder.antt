-- ===== src/Adapter/Builder.antt =====
-- frontend/src/integrations/collector/adapter.ts: the methods of `QueryBuilder` that return `this`.
use jvm_scout.Base.{
  ℕ, ◌∷◌, [], ◌++◌, List, Option, none, some, Bool, true, false, if◌then◌else◌, Text, ◌or_else◌,
}
use jvm_scout.Client.Values.{Value, Row}
use jvm_scout.Adapter.Query.{Query, Filter, one_of, Op, Mode}

-- `from(table)`, with the initial values of the fields.
unfoldable pub from : Text → Query
from table = record {
  table = table;
  filters = [];
  order_by = none;
  limit_n = none;
  op = Op.select;
  payload = [];
  mode = Mode.many;
}

abbrev is_pending : Op → Bool
is_pending Op.select = false
is_pending _ = true

-- `select(cols)` keeps a pending insert, update or delete.
unfoldable pub select : Query → Query
select q = if is_pending q.op then q else record q { op = Op.select }

-- `insert(payload)`: a single row is an array of one, as `run` makes it.
unfoldable pub insert : List Row → Query → Query
insert rows q = record q { op = Op.insert; payload = rows }

unfoldable pub update : Row → Query → Query
update patch q = record q { op = Op.update; payload = patch ∷ [] }

unfoldable pub delete : Query → Query
delete q = record q { op = Op.delete }

unfoldable pub eq : Text → Value → Query → Query
eq col val q = record q { filters = q.filters ++ Filter.eq col val ∷ [] }

-- `in(col, vals)`
unfoldable pub in_list : Text → List Value → Query → Query
in_list col vals q = record q { filters = q.filters ++ one_of col vals ∷ [] }

unfoldable pub order : Text → Option Bool → Query → Query
order col ascending q = record q {
  order_by = some (record { col = col; ascending = ascending or_else true });
}

unfoldable pub limit : ℕ → Query → Query
limit n q = record q { limit_n = some n }

-- The mode that `single()` and `maybeSingle()` set before they run the query.
unfoldable pub single : Query → Query
single q = record q { mode = Mode.single }

unfoldable pub maybe_single : Query → Query
maybe_single q = record q { mode = Mode.maybe_single }
