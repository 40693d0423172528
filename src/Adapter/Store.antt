-- ===== src/Adapter/Store.antt =====
-- The configuration calls of frontend/src/integrations/collector/client.ts, and what the builder of
-- frontend/src/integrations/collector/adapter.ts does with them.
use jvm_scout.Base.{
  ◌∷◌, [], List, Option, none, some, Bool, false, Text, codes, text_dec, nat_dec, map, find, length,
  if◌then◌else◌, ◌==◌,
}
use jvm_scout.Client.Values.{Row, column, to_text}
use jvm_scout.Client.Endpoints.{Endpoint}
use jvm_scout.Client.Http.{Platform, Effect, http, need, pure, ◌>>=◌}
use jvm_scout.Adapter.Query.{Filter, eq, one_of, apply_filters}

-- The filter is `{ kind: "eq", col: "id" }`.
abbrev is_id_eq : Filter → Bool
is_id_eq (eq col val) = col == codes "id"
is_id_eq (one_of col vals) = false

-- `String(val)` of an `eq` filter.
abbrev eq_text : Filter → Text
eq_text (eq col val) = to_text val
eq_text (one_of col vals) = []

abbrev pub id_of : Row → Text
id_of r = to_text (column (codes "id") r)

-- `if (idEq && this.filters.length === 1)`: the id that needs no list of the rows.
unfoldable pub shortcut : List Filter → Option Text
shortcut filters = elim (find is_id_eq filters) [
  | none ↦ none
  | some f ↦ if length filters == 1 then some (eq_text f) else none
]

module _ {World : Type 0} (p : Platform World) where
  unfoldable pub config_list : Text → Effect World (Option (List Row))
  config_list table = http p (Endpoint.config_list table)

  unfoldable pub config_insert : Text → Row → Effect World (Option Row)
  config_insert table row = http p (Endpoint.config_insert table row)

  unfoldable pub config_update : Text → Text → Row → Effect World (Option Row)
  config_update table id patch = http p (Endpoint.config_update table id patch)

  unfoldable pub config_delete : Text → Text → Effect World (Unit {0})
  config_delete table id = do _ ← http p (Endpoint.config_delete table id); pure tt

  -- The ids of the rows that pass the filters.
  unfoldable pub listed_ids : Text → List Filter → Effect World (List Text)
  listed_ids table filters = do
    listed ← config_list table
    rows ← need listed
    pure (map id_of (apply_filters rows filters))

  -- `matchingConfigIds`
  unfoldable pub matching_config_ids : Text → List Filter → Effect World (List Text)
  matching_config_ids table filters = elim (shortcut filters) [
    | some id ↦ pure (id ∷ [])
    | none ↦ listed_ids table filters
  ]

  -- The loops of `run`, one call after another; the first that throws ends the loop.
  unfoldable pub insert_all : Text → List Row → Effect World (List (Option Row))
  insert_all table [] = pure []
  insert_all table (r ∷ rs) = do
    row ← config_insert table r
    rest ← insert_all table rs
    pure (row ∷ rest)

  unfoldable pub update_all : Text → Row → Option Row → List Text → Effect World (Option Row)
  update_all table patch last [] = pure last
  update_all table patch last (id ∷ ids) = do
    row ← config_update table id patch
    update_all table patch row ids

  unfoldable pub delete_all : Text → List Text → Effect World (Unit {0})
  delete_all table [] = pure tt
  delete_all table (id ∷ ids) = do _ ← config_delete table id; delete_all table ids
