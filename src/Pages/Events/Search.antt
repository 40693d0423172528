-- ===== src/Pages/Events/Search.antt =====
-- frontend/src/routes/_authenticated/events.tsx: the search parameters and what the page's controls do
-- to them, and the selection of rows.
use jvm_scout.Base.{
  ℕ, ◌+◌, ◌*◌, [], List, Option, none, some, Bool, true, false, ◌&&◌, not, Text, text_dec, is_empty,
  split_on, join_with, set_of, has, add, delete, filter, all, map, length, ltb, if◌then◌else◌,
}
use jvm_scout.Client.Events.{EventRow}
use jvm_scout.Shell.{TimeRange, hour, day, week, month, custom}

pub data Chip : Type 0 where
  no_chip new increasing unresolved : Chip

pub data SortField : Type 0 where
  last_seen first_seen hit_count name : SortField

pub data Direction : Type 0 where
  asc desc : Direction

-- The search parameters; six of them are lists of values, separated by commas.
pub record Search : Type 0 where
  pub q : Text
  pub type : Text
  pub severity : Text
  pub status : Text
  pub app : Text
  pub deployment : Text
  pub server : Text
  pub chip : Chip
  pub sort : SortField
  pub dir : Direction

abbrev pub comma : ℕ
comma = 44

abbrev pub is_given : Text → Bool
is_given s = not (is_empty s)

-- `csvSet`
unfoldable pub csv_set : Text → List Text
csv_set s = set_of (filter is_given (split_on comma s))

-- `toggleCsv`
unfoldable pub toggle_csv : Text → Text → Text
toggle_csv csv value =
    let set = csv_set csv in
    join_with comma (if has value set then delete value set else add value set)

-- `resetFilters`, and the default of every parameter.
abbrev pub reset_search : Search
reset_search = record {
  q = [];
  type = [];
  severity = [];
  status = [];
  app = [];
  deployment = [];
  server = [];
  chip = no_chip;
  sort = last_seen;
  dir = desc;
}

abbrev is_chosen : Chip → ℕ
is_chosen no_chip = 0
is_chosen _ = 1

unfoldable pub active_filter_count : Search → ℕ
active_filter_count s =
    (if is_empty s.q then 0 else 1)
    + length (csv_set s.type)
    + length (csv_set s.severity)
    + length (csv_set s.status)
    + length (csv_set s.app)
    + length (csv_set s.deployment)
    + length (csv_set s.server)
    + is_chosen s.chip

abbrev same_field : SortField → SortField → Bool
same_field last_seen last_seen = true
same_field first_seen first_seen = true
same_field hit_count hit_count = true
same_field name name = true
same_field _ _ = false

abbrev is_desc : Direction → Bool
is_desc asc = false
is_desc desc = true

-- A click on the header of a column.
unfoldable pub sort_on : SortField → Search → Search
sort_on field s = record s {
  sort = field;
  dir = if same_field s.sort field && is_desc s.dir then asc else desc;
}

-- `TIME_HOURS`, null for a custom range.
abbrev pub time_hours : TimeRange → Option ℕ
time_hours hour = some 1
time_hours day = some 24
time_hours week = some (24 * 7)
time_hours month = some (24 * 30)
time_hours custom = none

-- The selected ids: `allSelected`, `toggleAll` and `toggleOne`.
unfoldable pub all_selected : List Text → List EventRow → Bool
all_selected selected rows = ltb 0 (length rows) && all (λ r. has r.id selected) rows

unfoldable pub toggle_all : List Text → List EventRow → List Text
toggle_all selected rows = if all_selected selected rows then [] else set_of (map (λ r. r.id) rows)

unfoldable pub toggle_one : Text → List Text → List Text
toggle_one id selected = if has id selected then delete id selected else add id selected
