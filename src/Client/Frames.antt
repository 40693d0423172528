-- ===== src/Client/Frames.antt =====
-- frontend/src/integrations/collector/client.ts: `fetchExceptionDetail`, `detailFrames`,
-- `deriveStackFrames` and `deriveVariables`.
pub mod Laws
pub mod Asked
use jvm_scout.Base.{
  ℕ, suc, ◌∷◌, [], ◌++◌, List, Option, none, some, Bool, false, map, filter, Text, codes, text_dec,
  show, split_on, set_of, has, ◌or_else◌,
}
use jvm_scout.Client.Endpoints.{Endpoint, Spelled, either, Local, Frame, Detail}
use jvm_scout.Client.Http.{Platform, Effect, http, pure, ◌>>=◌}
use jvm_scout.Client.Promises.{all_of}

pub record FrameRow : Type 0 where
  pub id : Text
  pub snapshot_id : Text
  pub frame_index : ℕ
  pub class_name : Text
  pub method : Text
  pub file : Text
  pub line : ℕ
  pub in_user_code : Bool
  pub source_snippet : Option Text

pub record VariableRow : Type 0 where
  pub id : Text
  pub frame_id : Text
  pub name : Text
  pub type : Text
  pub value : Option Text
  pub redacted : Bool

-- `:` is the code unit 58.
abbrev pub colon : ℕ
colon = 58

-- `${id}:${index}`
abbrev pub with_index : Text → ℕ → Text
with_index id index = id ++ colon ∷ show index

-- `f.frameIndex ?? f.frame_index ?? i`
abbrev pub index_of : ℕ → Frame → ℕ
index_of i f = either f.frame_index or_else i

abbrev pub frame_from : Text → ℕ → Frame → FrameRow
frame_from snapshot_id i f = record {
  id = with_index snapshot_id (index_of i f);
  snapshot_id = snapshot_id;
  frame_index = index_of i f;
  class_name = either f.class_name or_else codes "?";
  method = either f.method_name or_else codes "?";
  file = either f.source_file or_else [];
  line = either f.line_number or_else 0;
  in_user_code = either f.is_app_code or_else false;
  source_snippet = either f.source_snippet;
}

abbrev pub variable_from : Text → ℕ → Local → VariableRow
variable_from frame_id vi v = record {
  id = with_index frame_id vi;
  frame_id = frame_id;
  name = v.name or_else codes "?";
  type = (elim v.type [ none ↦ v.signature | some t ↦ some t ]) or_else codes "?";
  value = v.value;
  redacted = false;
}

-- `locals.forEach((v, vi) => ...)`, from the index `vi` on.
unfoldable pub variables_from : Text → ℕ → List Local → List VariableRow
variables_from frame_id vi [] = []
variables_from frame_id vi (v ∷ vs) =
    variable_from frame_id vi v ∷ variables_from frame_id (suc vi) vs

-- `stack.forEach((f, i) => ...)`, from the index `i` on: the frames, and the variables.
unfoldable pub frames_of : Text → ℕ → List Frame → List FrameRow
frames_of snapshot_id i [] = []
frames_of snapshot_id i (f ∷ fs) = frame_from snapshot_id i f ∷ frames_of snapshot_id (suc i) fs

unfoldable pub variables_of : Text → ℕ → List Frame → List VariableRow
variables_of snapshot_id i [] = []
variables_of snapshot_id i (f ∷ fs) =
    variables_from (with_index snapshot_id (index_of i f)) 0 (either f.local_variables or_else [])
    ++ variables_of snapshot_id (suc i) fs

-- `detail?.stackTrace ?? detail?.stack_trace ?? []`
abbrev pub stack_of : Option Detail → List Frame
stack_of none = []
stack_of (some d) = either d.stack_trace or_else []

-- `f.split(":")[0]`; a text always has a first part.
unfoldable pub snapshot_id_of : Text → Text
snapshot_id_of frame_id = elim (split_on colon frame_id) [ [] ↦ [] | part ∷ parts ↦ part ]

abbrev pub joined : {A : Type 0} → List (List A) → List A
joined [] = []
joined (xs ∷ xss) = xs ++ joined xss

module _ {World : Type 0} (p : Platform World) where
  unfoldable pub fetch_exception_detail : Text → Effect World (Option Detail)
  fetch_exception_detail row_id = http p (Endpoint.exception_detail row_id)

  unfoldable pub detail_frames : Text → Effect World (List FrameRow × List VariableRow)
  detail_frames snapshot_id = do
    detail ← fetch_exception_detail snapshot_id
    pure (frames_of snapshot_id 0 (stack_of detail), variables_of snapshot_id 0 (stack_of detail))

  unfoldable pub derive_stack_frames : Text → Effect World (List FrameRow)
  derive_stack_frames snapshot_id = do found ← detail_frames snapshot_id; pure found.0

  unfoldable pub derive_variables : List Text → Effect World (List VariableRow)
  derive_variables frame_ids = do
    found ← all_of detail_frames (set_of (map snapshot_id_of frame_ids))
    pure (filter (λ v. has v.frame_id frame_ids) (joined (map (λ d. d.1) found)))
