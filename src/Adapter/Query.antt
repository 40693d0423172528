-- ===== src/Adapter/Query.antt =====
-- frontend/src/integrations/collector/adapter.ts: the builder's state, its chained methods, and the
-- filtering and ordering of rows.
use jvm_scout.Base.{
  ℕ, ◌∷◌, [], List, Option, none, some, Bool, false, Ordering, Text, codes, text_dec, nat_dec, all,
  any, filter, has, str_lt, ltb, Comparator, flip_sign, if◌then◌else◌,
}
use jvm_scout.Client.Values.{Value, undefined, null, object, bool, num, str, Row, column, strict_eq}

-- `val` of an `in` filter is an array.
pub data Filter : Type 0 where
  eq : (col : Text) (val : Value) → Filter
  one_of : (col : Text) (vals : List Value) → Filter

abbrev pub col_of : Filter → Text
col_of (eq col val) = col
col_of (one_of col vals) = col

abbrev config_tables : List Text
config_tables =
    codes "alert_rules"
    ∷ codes "integrations"
    ∷ codes "redaction_rules"
    ∷ codes "api_tokens"
    ∷ codes "team_members"
    ∷ codes "workspace_settings"
    ∷ []

-- `CONFIG_TABLES.has(table)`
unfoldable pub is_config : Text → Bool
is_config table = has table config_tables

-- `r[f.col] === f.val`, or `f.val.includes(r[f.col])`
unfoldable pub passes : Row → Filter → Bool
passes r (eq col val) = strict_eq (column col r) val
passes r (one_of col vals) = any (λ v. strict_eq v (column col r)) vals

unfoldable pub apply_filters : List Row → List Filter → List Row
apply_filters rows filters = filter (λ r. all (passes r) filters) rows

pub data Op : Type 0 where
  select insert update delete : Op

pub data Mode : Type 0 where
  many single maybe_single : Mode

pub record OrderBy : Type 0 where
  pub col : Text
  pub ascending : Bool

-- The builder; `payload` holds the rows of an insert, or the one patch of an update.
pub record Query : Type 0 where
  pub table : Text
  pub filters : List Filter
  pub order_by : Option OrderBy
  pub limit_n : Option ℕ
  pub op : Op
  pub payload : List Row
  pub mode : Mode

-- The number that `<` makes of a value that is not compared as a string; `none` is NaN. `number` is
-- `Number(s)` at a string.
abbrev pub to_number : (Text → Option ℕ) → Value → Option ℕ
to_number number undefined = none
to_number number object = none
to_number number null = some 0
to_number number (bool b) = if b then some 1 else some 0
to_number number (num n) = some n
to_number number (str s) = number s

abbrev pub number_less : Option ℕ → Option ℕ → Bool
number_less (some a) (some b) = ltb a b
number_less _ _ = false

-- `av < bv`
abbrev pub less : (Text → Option ℕ) → Value → Value → Bool
less number (str a) (str b) = str_lt a b
less number a b = number_less (to_number number a) (to_number number b)

-- The comparator of `run`.
unfoldable pub compare_rows : (Text → Option ℕ) → OrderBy → Comparator Row
compare_rows number o a b =
    let av = column o.col a in
    let bv = column o.col b in
    if strict_eq av bv
    then Ordering.eq
    else (let cmp = if less number av bv then Ordering.lt else Ordering.gt in
        if o.ascending then cmp else flip_sign cmp)
