-- ===== src/Tests/Adapter.antt =====
-- The theorems about frontend/src/integrations/collector/adapter.ts at concrete inputs.
use jvm_scout.Base.{
  ◌↔◌, ◌≡◌, refl, inl, inr, arith, All, ◌∷◌, [], List, none, some, true, Text, map, codes, text_dec,
  all, Mem, Nodup, filter, not, text_discrete, lookup, has, if◌then◌else◌, ◌==◌,
}
use jvm_scout.Client.Values.{str, Row, column, to_text}
use jvm_scout.Client.Http.{ClientState, Effect, pure}
use jvm_scout.Adapter.Query.{Query, Filter, Op, Mode, passes, OrderBy, is_config}
use jvm_scout.Adapter.Store.{shortcut, id_of}
use jvm_scout.Adapter.Meets.{Meets}
use jvm_scout.Adapter.Run.{nothing, selected, run}
use jvm_scout.Adapter.Select.{IsText, InOrder, Mem-selected, selected-Sorted}
use jvm_scout.Adapter.Deletion.{run-delete}
use jvm_scout.Tests.Data.{
  no_number, Tables, served, served-IsTableStore, rows_of_table, alert_rules, rule, two_rules,
  start,
}

abbrev no_table : Text → List Filter → Effect Tables (List Row)
no_table t filters = pure []

abbrev by_name : OrderBy
by_name = record { col = codes "name"; ascending = true }

-- The rules that are called fatal.
abbrev fatal_rules : Query
fatal_rules = record {
  table = codes "alert_rules";
  filters = Filter.eq (codes "name") (str (codes "fatal")) ∷ [];
  order_by = none;
  limit_n = none;
  op = Op.select;
  payload = [];
  mode = Mode.many;
}

abbrev first_rule : Query
first_rule = record fatal_rules { filters = []; order_by = some by_name; limit_n = some 1 }

abbrev fatal : Row
fatal = rule (codes "r2") (codes "fatal")

Mem-selected_example :
    Mem fatal (selected no_number fatal_rules two_rules)
    ↔ (Mem fatal two_rules × All (Meets fatal) fatal_rules.filters)
Mem-selected_example = Mem-selected no_number fatal_rules two_rules fatal refl

slow-IsText : IsText no_number by_name.col (rule (codes "r1") (codes "slow"))
unfolding column text_discrete lookup
slow-IsText = (codes "slow", refl)

fatal-IsText : IsText no_number by_name.col fatal
unfolding column text_discrete lookup
fatal-IsText = (codes "fatal", refl)

selected-Sorted_example : InOrder by_name (selected no_number first_rule two_rules)
selected-Sorted_example =
    selected-Sorted no_number first_rule two_rules by_name refl (slow-IsText, (fatal-IsText, tt))

rules_config : is_config (codes "alert_rules") ≡ true
unfolding is_config text_discrete has
rules_config = refl

abbrev delete_fatal : Query
delete_fatal = record fatal_rules { op = Op.delete }

fatal_listed : shortcut delete_fatal.filters ≡ none
unfolding shortcut text_discrete
fatal_listed = refl

rules_distinct : Nodup (map id_of two_rules)
unfolding column text_discrete lookup to_text
rules_distinct = ((λ m. elim m [ inl e ↦ absurd (ground arith) | inr n ↦ n ]), ((λ n. n), tt))

run-delete_example :
    (s' : ClientState Tables) × (run served no_number no_table delete_fatal start
      ≡ (record { value = nothing; error = none }, s'))
    × ((u : Text)
        → s'.world u ≡ (
            if codes "alert_rules" == u
            then filter (λ r. not (all (passes r) delete_fatal.filters)) (alert_rules u)
            else alert_rules u))
unfolding text_discrete
run-delete_example =
    run-delete served rows_of_table served-IsTableStore no_number no_table delete_fatal start refl
      rules_config fatal_listed rules_distinct
