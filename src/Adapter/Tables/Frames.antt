-- ===== src/Adapter/Tables/Frames.antt =====
-- Selects of the frames of a snapshot and of their variables, down to the collector.
use jvm_scout.Base.{
  ℕ, suc, ◌&&◌, ◌≡◌, refl, ap, ◌∙◌, fun_ext, arith, List, [], ◌∷◌, Option, none, some, true, false,
  map, any, all, filter_of_All, Text, codes, text_discrete, has, lookup, text_dec, ℕ_discrete,
  nat_dec, ◌==◌, ◌||◌, All, sort_by, sort_by-map, append-nil, Comparator, compare, Lacks, set_of,
}
use jvm_scout.Client.Values.{str, column, to_text, strict_eq}
use jvm_scout.Client.Http.{Platform, ClientState, ok, pure, >>=-ok}
use jvm_scout.Client.Promises.{all_of, all_of-one}
use jvm_scout.Client.Endpoints.{Detail, Frame}
use jvm_scout.Client.Frames.{
  FrameRow, VariableRow, fetch_exception_detail, derive_stack_frames, derive_variables, frames_of,
  variables_of, stack_of, snapshot_id_of, joined, colon,
}
use jvm_scout.Client.Frames.Laws.{derive_stack_frames-ok, variables_of-IsWanted}
use jvm_scout.Client.Frames.Asked.{derive_variables-covered}
use jvm_scout.Adapter.Query.{
  Query, Filter, one_of, Op, Mode, OrderBy, is_config, passes, apply_filters, compare_rows,
}
use jvm_scout.Adapter.Query
use jvm_scout.Adapter.Builder.{from, select, eq, in_list, order}
use jvm_scout.Adapter.Run.{rows, selected, source_rows, run}
use jvm_scout.Adapter.Errors.{run-select}
use jvm_scout.Adapter.Tables.{
  frame_columns, variable_columns, frames_on, variables_on, load_read_table,
}

abbrev pub by_index : Comparator FrameRow
by_index a b = compare a.frame_index b.frame_index

-- The queries for the frames of a snapshot, and for the variables of frames.
abbrev pub frames_query : Text → Query
frames_query sid =
    order (codes "frame_index") (some true)
      (eq (codes "snapshot_id") (str sid) (select (from (codes "stack_frames"))))

abbrev pub variables_query : List FrameRow → Query
variables_query frames =
    in_list (codes "frame_id") (map (column (codes "id")) (map frame_columns frames))
      (select (from (codes "variables")))

compare_frame_columns :
    (number : Text → Option ℕ) (a b : FrameRow)
    → compare_rows number
        (record { col = codes "frame_index"; ascending = true })
        (frame_columns a)
        (frame_columns b)
      ≡ by_index a b
unfolding compare_rows column lookup text_discrete ℕ_discrete
compare_frame_columns number a b = ground arith

same_text : (t : Text) → (t == t && true) ≡ true
same_text t = ground arith

frames_pass :
    (sid : Text) (i : ℕ) (fs : List Frame)
    → All
        (λ r. all (passes r) (Query.Filter.eq (codes "snapshot_id") (str sid) ∷ []) ≡ true)
        (map frame_columns (frames_of sid i fs))
unfolding frames_of passes column lookup text_discrete ℕ_discrete
frames_pass sid i [] = tt
frames_pass sid i (f ∷ fs) = (same_text sid, frames_pass sid (suc i) fs)

ids_of_frames :
    (frames : List FrameRow)
    → map to_text (map (column (codes "id")) (map frame_columns frames)) ≡ map (λ r. r.id) frames
unfolding to_text column lookup text_discrete ℕ_discrete
ids_of_frames [] = refl
ids_of_frames (f ∷ fs) = ap (f.id ∷◌) (ids_of_frames fs)

is_id_of_frames :
    (t : Text) (frames : List FrameRow)
    → any (λ v. strict_eq v (str t)) (map (column (codes "id")) (map frame_columns frames))
      ≡ has t (map (λ r. r.id) frames)
unfolding has column lookup text_discrete ℕ_discrete
is_id_of_frames t [] = refl
is_id_of_frames t (f ∷ fs) = ap (f.id == t ||◌) (is_id_of_frames t fs)

variables_pass :
    (frames : List FrameRow) (vs : List VariableRow)
    → All (λ v. has v.frame_id (map (λ r. r.id) frames) ≡ true) vs
    → All (λ r. all (passes r) (variables_query frames).filters ≡ true) (map variable_columns vs)
unfolding passes select from in_list column lookup text_discrete ℕ_discrete
variables_pass frames [] h = tt
variables_pass frames (v ∷ vs) (e, h) =
    (ap (λ b. b && true) (is_id_of_frames v.frame_id frames ∙ e), variables_pass frames vs h)

derived_frames : is_config (codes "stack_frames") ≡ false
unfolding is_config has text_discrete ℕ_discrete
derived_frames = refl

derived_variables : is_config (codes "variables") ≡ false
unfolding is_config has text_discrete ℕ_discrete
derived_variables = refl

selected_frames :
    (number : Text → Option ℕ) (sid : Text) (fs : List Frame)
    → selected number (frames_query sid) (map frame_columns (frames_of sid 0 fs))
      ≡ map frame_columns (sort_by by_index (frames_of sid 0 fs))
unfolding selected apply_filters order eq select from
selected_frames number sid fs =
    let o : OrderBy = record { col = codes "frame_index"; ascending = true } in
    let rs = map frame_columns (frames_of sid 0 fs) in
    ap (sort_by (compare_rows number o)) (filter_of_All _ rs (frames_pass sid 0 fs))
    ∙ sort_by-map (compare_rows number o) frame_columns (frames_of sid 0 fs)
    ∙ ap (λ cmp. map frame_columns (sort_by cmp (frames_of sid 0 fs)))
        (fun_ext (λ a. fun_ext (λ b. compare_frame_columns number a b)))

selected_variables :
    (number : Text → Option ℕ) (frames : List FrameRow) (vs : List VariableRow)
    → All (λ v. has v.frame_id (map (λ r. r.id) frames) ≡ true) vs
    → selected number (variables_query frames) (map variable_columns vs) ≡ map variable_columns vs
unfolding selected apply_filters select from in_list
selected_variables number frames vs h =
    filter_of_All _ (map variable_columns vs) (variables_pass frames vs h)

module _ {World : Type 0} (p : Platform World) (iso : ℕ → Text) (time_of : Text → Option ℕ)
    (lower : Text → Text) (number : Text → Option ℕ) (sid : Text) (plain : Lacks colon sid)
    (d : Detail) (s s' : ClientState World)
    (answered : fetch_exception_detail p sid s ≡ (ok (some d), s')) where
  abbrev stack : List Frame
  stack = stack_of (some d)

  load_frames :
      load_read_table p iso time_of lower
        (codes "stack_frames")
        (Query.eq (codes "snapshot_id") (str sid) ∷ [])
        s
      ≡ (ok (map frame_columns (frames_of sid 0 stack)), s')
  unfolding load_read_table frames_on text_discrete ℕ_discrete to_text
  load_frames =
      >>=-ok (all_of (derive_stack_frames p) (sid ∷ []))
        (λ found. pure (map frame_columns (joined found)))
        (all_of-one (derive_stack_frames p) sid
          (derive_stack_frames-ok p sid plain d s s' answered))
      ∙ ap (λ fs. (ok (map frame_columns fs), s')) (append-nil (frames_of sid 0 stack))

  frames_source :
      source_rows p number (load_read_table p iso time_of lower) (frames_query sid) s
      ≡ (ok (map frame_columns (frames_of sid 0 stack)), s')
  unfolding source_rows order eq select from
  frames_source = rw (derived_frames) load_frames

  -- A select of the frames of a snapshot returns them in the order of their indices.
  pub run-frames_query : run p number (load_read_table p iso time_of lower) (frames_query sid) s ≡ (
    record {
      value = rows (map frame_columns (sort_by by_index (frames_of sid 0 stack)));
      error = none;
    },
    s',
  )
  unfolding order eq select from
  run-frames_query =
      run-select p number (load_read_table p iso time_of lower) (frames_query sid) s s' _
        frames_source refl
      ∙ ap (λ rs. (record { value = rows rs; error = none }, s')) (selected_frames number sid stack)

  module _ (frames : List FrameRow)
      (one : set_of (map snapshot_id_of (map (λ r. r.id) frames)) ≡ sid ∷ [])
      (covers : All (λ r. has r.id (map (λ r. r.id) frames) ≡ true) (frames_of sid 0 stack)) where
    asked_variables :
        derive_variables p (map to_text (map (column (codes "id")) (map frame_columns frames))) s
        ≡ (ok (variables_of sid 0 stack), s')
    asked_variables =
        ap (λ ids. derive_variables p ids s) (ids_of_frames frames)
        ∙ derive_variables-covered p sid plain d s s' answered (map (λ r. r.id) frames) covers one

    load_variables :
        load_read_table p iso time_of lower
          (codes "variables")
          (one_of (codes "frame_id") (map (column (codes "id")) (map frame_columns frames)) ∷ [])
          s
        ≡ (ok (map variable_columns (variables_of sid 0 stack)), s')
    unfolding load_read_table variables_on text_discrete ℕ_discrete
    load_variables =
        >>=-ok
          (derive_variables p (map to_text (map (column (codes "id")) (map frame_columns frames))))
          (λ found. pure (map variable_columns found)) asked_variables

    variables_source :
        source_rows p number (load_read_table p iso time_of lower) (variables_query frames) s
        ≡ (ok (map variable_columns (variables_of sid 0 stack)), s')
    unfolding source_rows in_list select from
    variables_source = rw (derived_variables) load_variables

    -- A select of the variables of all frames of a snapshot returns all variables of the snapshot.
    pub run-variables_query :
        run p number (load_read_table p iso time_of lower) (variables_query frames) s ≡ (
          record { value = rows (map variable_columns (variables_of sid 0 stack)); error = none },
          s',
        )
    unfolding in_list select from
    run-variables_query =
        run-select p number (load_read_table p iso time_of lower) (variables_query frames) s s' _
          variables_source refl
        ∙ ap (λ rs. (record { value = rows rs; error = none }, s'))
            (selected_variables number frames (variables_of sid 0 stack)
              (variables_of-IsWanted (map (λ r. r.id) frames) sid 0 stack covers))
