-- ===== src/Client/Values.antt =====
-- The dynamic values of rows (`Record<string, any>`) that the query builder of
-- frontend/src/integrations/collector/adapter.ts reads by column name.
use jvm_scout.Base.{
  ℕ, List, none, some, Bool, true, false, Text, text_dec, nat_dec, lookup, show, codes, ◌==◌,
}

-- An array or object is known by its identity only, so no two of them are `===`.
pub data Value : Type 0 where
  undefined null object : Value
  bool : Bool → Value
  num : ℕ → Value
  str : Text → Value

abbrev pub Row : Type 0
Row = List (Text × Value)

-- `r[col]`
unfoldable pub column : Text → Row → Value
column col r = elim (lookup col r) [ none ↦ undefined | some v ↦ v ]

-- `a === b`
abbrev pub strict_eq : Value → Value → Bool
strict_eq undefined undefined = true
strict_eq null null = true
strict_eq (bool true) (bool true) = true
strict_eq (bool false) (bool false) = true
strict_eq (num a) (num b) = a == b
strict_eq (str a) (str b) = a == b
strict_eq _ _ = false

-- `String(v)`
unfoldable pub to_text : Value → Text
to_text undefined = codes "undefined"
to_text null = codes "null"
to_text object = codes "[object Object]"
to_text (bool true) = codes "true"
to_text (bool false) = codes "false"
to_text (num n) = show n
to_text (str s) = s
