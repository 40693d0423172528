-- ===== src/Pages/EventDetail.antt =====
-- frontend/src/routes/_authenticated/events.$id.tsx: which occurrence and which frame are shown.
pub mod Trace
pub mod Selection
pub mod Queries
pub mod Snippet
pub mod Highlight
pub mod Panes
use jvm_scout.Base.{
  ℕ, zero, ◌-◌, ◌∷◌, [], List, Option, none, some, Bool, ◌||◌, min, max, Text, codes, nat_dec,
  length, get_elem?, find, any, split_on, is_empty, starts_with, trim, if◌then◌else◌, ◌==◌,
  ◌or_else◌,
}
use jvm_scout.Client.Frames.{FrameRow}
use jvm_scout.Pages.Times.{first_of}

-- The parameters of the address, none below 0.
pub record Search : Type 0 where
  pub occ : Option ℕ
  pub frame : Option ℕ

-- `occIndex`, of the number of occurrences.
unfoldable pub occ_index : Search → ℕ → ℕ
occ_index search count = min (max (search.occ or_else 0) 0) (max (count - 1) 0)

-- `currentSnapshot`
unfoldable pub current_snapshot {ℓ} : {A : Type ℓ} → Search → List A → Option A
current_snapshot search snapshots = get_elem? snapshots (occ_index search (length snapshots))

abbrev pub index_or_zero : Option FrameRow → ℕ
index_or_zero none = 0
index_or_zero (some f) = f.frame_index

-- `defaultFrameIdx`: the first frame in user code, else the first.
unfoldable pub default_frame : List FrameRow → ℕ
default_frame frames = elim (find (λ f. f.in_user_code) frames) [
  | some f ↦ f.frame_index
  | none ↦ index_or_zero (first_of frames)
]

abbrev pub selected_index : Search → List FrameRow → ℕ
selected_index search frames = search.frame or_else default_frame frames

abbrev pub has_index : ℕ → FrameRow → Bool
has_index i f = f.frame_index == i

unfoldable pub selected_frame : Search → List FrameRow → Option FrameRow
selected_frame search frames = elim (find (has_index (selected_index search frames)) frames) [
  | some f ↦ some f
  | none ↦ first_of frames
]

-- The effect after a change of the frames: the parameter goes when no frame has the index.
unfoldable pub settle_frame : List FrameRow → Search → Search
settle_frame [] search = search
settle_frame (f ∷ fs) search =
    if any (has_index (selected_index search (f ∷ fs))) (f ∷ fs)
    then search
    else record search { frame = none }

abbrev pub set_occ : ℕ → Search → Search
set_occ next search = record search { occ = some next; frame = none }

abbrev pub set_frame : ℕ → Search → Search
set_frame i search = record search { frame = some i }

abbrev last_part : Text → List Text → Text
last_part t [] = t
last_part t (x ∷ []) = if is_empty x then t else x
last_part t (x ∷ y ∷ ys) = last_part t (y ∷ ys)

-- `shortType`
unfoldable pub short_type : Text → Text
short_type t = last_part t (split_on 46 t)

-- `tryParseJson`; `parse` is `JSON.parse`, none when it throws.
unfoldable pub try_parse_json {ℓ} : {A : Type ℓ} → (parse : Text → Option A) → Text → Option A
try_parse_json parse s =
    let trimmed = trim s in
    if starts_with (codes "{") trimmed || starts_with (codes "[") trimmed
    then parse trimmed
    else none
