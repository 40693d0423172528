-- ===== src/Pages/EventDetail/Panes.antt =====
-- The panes of frontend/src/routes/_authenticated/events.$id.tsx: the steps between occurrences, the
-- folded groups that are open, the name of a frame's class, and the cell of a variable.
pub mod Laws
use jvm_scout.Base.{
  ℕ, ◌+◌, ◌-◌, max, min, ◌∷◌, [], ◌++◌, List, Option, none, some, Bool, true, false, not, ◌&&◌,
  ◌||◌, Text, codes, text_dec, nat_dec, has, add, delete, filter, length, drop, starts_with,
  split_on, ltb, leb, is_some, if◌then◌else◌, ◌==◌, ◌or_else◌,
}
use jvm_scout.Client.Frames.{FrameRow, VariableRow}
use jvm_scout.Pages.EventDetail.{Search, occ_index, set_occ, short_type, try_parse_json}
use jvm_scout.Pages.EventDetail.Trace.{TraceRow, frame, collapsed}
use jvm_scout.Pages.EventDetail.Snippet.{SourceLine}

-- `onPrev` and `onNext`, of the number of occurrences, of which there is one: without any, both
-- buttons are disabled.
unfoldable pub on_prev : Search → ℕ → Search
on_prev search count = set_occ (max 0 (occ_index search count - 1)) search

unfoldable pub on_next : Search → ℕ → Search
on_next search count = set_occ (min (count - 1) (occ_index search count + 1)) search

-- Whether the buttons are disabled.
abbrev pub prev_disabled : Search → ℕ → Bool
prev_disabled search count = occ_index search count == 0

abbrev pub next_disabled : Search → ℕ → Bool
next_disabled search count = leb (count - 1) (occ_index search count)

-- `expanded` after a click on a group, of the frame index of its first frame.
unfoldable pub toggle_group : ℕ → List ℕ → List ℕ
toggle_group key expanded = if has key expanded then delete key expanded else add key expanded

abbrev pub group_frames : List ℕ → List FrameRow → List FrameRow
group_frames expanded [] = []
group_frames expanded (f ∷ fs) = if has f.frame_index expanded then f ∷ fs else []

-- The frames that are listed: those of a folded row only if it is open.
unfoldable pub listed_frames : List ℕ → List TraceRow → List FrameRow
listed_frames expanded [] = []
listed_frames expanded (frame f ∷ rs) = f ∷ listed_frames expanded rs
listed_frames expanded (collapsed fs ∷ rs) = group_frames expanded fs ++ listed_frames expanded rs

abbrev pub last_of : Text → List Text → Text
last_of default [] = default
last_of default (t ∷ []) = t
last_of default (t ∷ u ∷ ts) = last_of default (u ∷ ts)

-- `frame.class_name.split(".").pop() ?? frame.class_name`
unfoldable pub short_class : Text → Text
short_class name = last_of name (split_on 46 name)

-- `s.replace(part, "")`: the first occurrence goes.
unfoldable pub without_first : Text → Text → Text
without_first part [] = []
without_first part (c ∷ s) =
    let rest = without_first part s in
    if starts_with part (c ∷ s) then drop (length part) (c ∷ s) else c ∷ rest

-- The name of the class in a row of the stack trace.
unfoldable pub shown_class : Text → Text
shown_class name = without_first (short_class name) name ++ short_class name

-- `isFailing`
abbrev pub is_failing : FrameRow → SourceLine → Bool
is_failing f line = line.failing || (elim line.line_no [ none ↦ false | some n ↦ n == f.line ])

-- The variables of the frame that is selected.
unfoldable pub variables_of_frame : Option FrameRow → List VariableRow → List VariableRow
variables_of_frame none vs = []
variables_of_frame (some f) vs = filter (λ v. v.frame_id == f.id) vs

-- What stands in the cell of a variable's value.
pub data Cell {ℓ} (Json : Type ℓ) : Type ℓ where
  redacted : Cell Json
  json : (value : Json) (text : Text) → Cell Json
  expandable : Text → Cell Json
  plain : Text → Cell Json

abbrev pub json_or : {Json : Type 0} → Text → Option Json → Cell Json
json_or value (some j) = json j value
json_or value none = if ltb 60 (length value) then expandable value else plain value

-- `VariableRowView`; `parse` is `JSON.parse`, which for these texts yields an object or array.
unfoldable pub cell_of : {Json : Type 0} → (parse : Text → Option Json) → VariableRow → Cell Json
cell_of parse v =
    let value = v.value or_else [] in
    if v.redacted then redacted else json_or value (try_parse_json parse value)
