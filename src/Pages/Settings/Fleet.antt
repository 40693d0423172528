-- ===== src/Pages/Settings/Fleet.antt =====
-- `agentStats` of frontend/src/routes/_authenticated/settings.tsx.
use jvm_scout.Base.{
  ℕ, ◌-◌, ◌≡◌, List, Option, some, false, Text, codes, text_dec, filter, length, get_elem?,
  get_elem?-Mem, Mem, Mem-sort_by, All, All-of_Mem, All-Mem, Sorted-last, sort_by-Sorted,
  compare_text, compare_text-IsOrder, sort_by, is_gt,
}
use jvm_scout.Client.Values.{str, Row, column, strict_eq}
use jvm_scout.Client.Http.{Platform, Effect, pure, ◌>>=◌}
use jvm_scout.Adapter.Query.{Filter}
use jvm_scout.Pages.EventDetail.Queries.{present_in}
use jvm_scout.Pages.Mutations.{list_rows}

pub record AgentStats : Type 0 where
  pub active : ℕ
  pub total : ℕ
  pub latest : Option Text

-- `sort().reverse()[0]`: the last of the sorted texts.
abbrev pub last_in_order : List Text → Option Text
last_in_order ts = let sorted = sort_by compare_text ts in get_elem? sorted (length sorted - 1)

unfoldable pub agent_stats_of : List Row → AgentStats
agent_stats_of servers = record {
  active =
      length (filter (λ s. strict_eq (column (codes "status") s) (str (codes "active"))) servers);
  total = length servers;
  latest = last_in_order (present_in (codes "last_seen") servers);
}

unfoldable pub agent_stats :
    {World : Type 0}
    → Platform World
    → (Text → Option ℕ)
    → (Text → List Filter → Effect World (List Row))
    → Effect World AgentStats
agent_stats p number read_table = do
  servers ← list_rows p number read_table (codes "servers")
  pure (agent_stats_of servers)

-- The latest time of the fleet is one of the agents' times, and none of theirs is after it.
pub agent_stats_of-latest :
    (servers : List Row) (l : Text)
    → (agent_stats_of servers).latest ≡ some l
    → Mem l (present_in (codes "last_seen") servers)
      × All (λ t. is_gt (compare_text t l) ≡ false) (present_in (codes "last_seen") servers)
unfolding agent_stats_of
agent_stats_of-latest servers l e =
    let times = present_in (codes "last_seen") servers in
    let all_unit = λ (ts : List Text). All-of_Mem (λ (t : Text). Unit {0}) ts (λ t m. tt) in
    let last =
      Sorted-last (λ _. Unit {0}) compare_text compare_text-IsOrder (sort_by compare_text times) l
        (all_unit (sort_by compare_text times))
        (sort_by-Sorted (λ _. Unit {0}) compare_text compare_text-IsOrder times (all_unit times))
        e in
    (
      (Mem-sort_by compare_text l times).0 (get_elem?-Mem (sort_by compare_text times) _ l e),
      All-of_Mem (λ t. is_gt (compare_text t l) ≡ false) times
          (λ t m.
            All-Mem (λ x. is_gt (compare_text x l) ≡ false) (sort_by compare_text times) t last
              ((Mem-sort_by compare_text t times).1 m)),
    )
