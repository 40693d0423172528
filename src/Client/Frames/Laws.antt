-- ===== src/Client/Frames/Laws.antt =====
-- The ids of frames, and the variables that belong to them.
use jvm_scout.Base.{
  ℕ, suc, ◌≡◌, refl, ap, ◌∙◌, arith, ◌∷◌, [], ◌++◌, List, some, true, map, filter, Text, text_dec,
  show, split_on-append, Lacks, set_of, add_all, add, has, has_of_Mem, Mem-map, append-nil, All,
  All-of_Mem, ◌or_else◌,
}
use jvm_scout.Client.Endpoints.{either, Local, Frame, Detail}
use jvm_scout.Client.Http.{Platform, ClientState, Effect, ok, pure, >>=-ok}
use jvm_scout.Client.Promises.{all_of, all_of-one}
use jvm_scout.Client.Frames.{
  FrameRow, VariableRow, colon, with_index, index_of, variables_from, frames_of, variables_of,
  stack_of, snapshot_id_of, joined, fetch_exception_detail, detail_frames, derive_stack_frames,
  derive_variables,
}

abbrev first_part : List Text → Text
first_part ws = elim ws [ [] ↦ [] | part ∷ parts ↦ part ]

-- A frame's id names its snapshot, where the snapshot's id has no colon.
pub snapshot_id_of-with_index :
    (sid : Text) (n : ℕ) → Lacks colon sid → snapshot_id_of (with_index sid n) ≡ sid
unfolding snapshot_id_of
snapshot_id_of-with_index sid n h = ap first_part (split_on-append colon sid (show n) h)

module _ (sid : Text) (plain : Lacks colon sid) where
  all_of_sid :
      (i : ℕ) (fs : List Frame) (known : List Text)
      → known ≡ sid ∷ []
      → add_all known (map snapshot_id_of (map (λ f. f.id) (frames_of sid i fs))) ≡ sid ∷ []
  unfolding frames_of add_all add has
  all_of_sid i [] known e = e
  all_of_sid i (f ∷ fs) known e =
      rw (e, snapshot_id_of-with_index sid (index_of i f) plain)
        (all_of_sid (suc i) fs _ (ground arith))

  snapshot_ids :
      (f : Frame) (fs : List Frame)
      → set_of (map snapshot_id_of (map (λ r. r.id) (frames_of sid 0 (f ∷ fs)))) ≡ sid ∷ []
  unfolding frames_of set_of add_all add has
  snapshot_ids f fs =
      rw (snapshot_id_of-with_index sid (index_of 0 f) plain) (all_of_sid 1 fs _ refl)

pub filter_wanted :
    (ids : List Text) (vs : List VariableRow)
    → All (λ v. has v.frame_id ids ≡ true) vs
    → filter (λ v. has v.frame_id ids) vs ≡ vs
filter_wanted ids [] h = refl
filter_wanted ids (v ∷ vs) (e, h) = rw e (ap (◌∷◌ v) (filter_wanted ids vs h))

All-append :
    (P : VariableRow → Type 0) (xs ys : List VariableRow) → All P xs → All P ys → All P (xs ++ ys)
All-append P [] ys h k = k
All-append P (x ∷ xs) ys (p, h) k = (p, All-append P xs ys h k)

module _ (ids : List Text) where
  abbrev pub IsWanted : VariableRow → Type 0
  IsWanted v = has v.frame_id ids ≡ true

  variables_from-IsWanted :
      (fid : Text) (vi : ℕ) (vs : List Local)
      → has fid ids ≡ true
      → All IsWanted (variables_from fid vi vs)
  unfolding variables_from
  variables_from-IsWanted fid vi [] h = tt
  variables_from-IsWanted fid vi (v ∷ vs) h = (h, variables_from-IsWanted fid (suc vi) vs h)

  pub variables_of-IsWanted :
      (sid : Text) (i : ℕ) (fs : List Frame)
      → All (λ r. has r.id ids ≡ true) (frames_of sid i fs)
      → All IsWanted (variables_of sid i fs)
  unfolding variables_of frames_of
  variables_of-IsWanted sid i [] h = tt
  variables_of-IsWanted sid i (f ∷ fs) (e, h) =
      All-append IsWanted
        (variables_from (with_index sid (index_of i f)) 0 (either f.local_variables or_else []))
        (variables_of sid (suc i) fs)
        (variables_from-IsWanted _ 0 (either f.local_variables or_else []) e)
        (variables_of-IsWanted sid (suc i) fs h)

module _ {World : Type 0} (p : Platform World) (sid : Text) (plain : Lacks colon sid) (d : Detail)
    (s s' : ClientState World) (answered : fetch_exception_detail p sid s ≡ (ok (some d), s')) where
  abbrev pub stack : List Frame
  stack = stack_of (some d)

  pub detail_frames-ok :
      detail_frames p sid s ≡ (ok (frames_of sid 0 stack, variables_of sid 0 stack), s')
  unfolding detail_frames
  detail_frames-ok =
      >>=-ok (fetch_exception_detail p sid)
        (λ detail. pure (frames_of sid 0 (stack_of detail), variables_of sid 0 (stack_of detail)))
        answered

  -- `deriveStackFrames` yields the frames of the snapshot's detail.
  pub derive_stack_frames-ok : derive_stack_frames p sid s ≡ (ok (frames_of sid 0 stack), s')
  unfolding derive_stack_frames
  derive_stack_frames-ok = >>=-ok (detail_frames p sid) (λ found. pure found.0) detail_frames-ok

  wanted_all :
      filter
        (λ v. has v.frame_id (map (λ r. r.id) (frames_of sid 0 stack)))
        (variables_of sid 0 stack)
      ≡ variables_of sid 0 stack
  wanted_all = filter_wanted (map (λ r. r.id) (frames_of sid 0 stack)) (variables_of sid 0 stack) (
      variables_of-IsWanted (map (λ r. r.id) (frames_of sid 0 stack)) sid 0 stack (
        All-of_Mem _ (frames_of sid 0 stack) (λ r m.
          has_of_Mem r.id (map (λ r. r.id) (frames_of sid 0 stack))
            (Mem-map (λ r. r.id) r (frames_of sid 0 stack) m))))

  abbrev ids : List Text
  ids = map (λ r. r.id) (frames_of sid 0 stack)

  -- What `deriveVariables` makes of the details that it has fetched.
  abbrev kept : List (List FrameRow × List VariableRow) → Effect World (List VariableRow)
  kept found = pure (filter (λ v. has v.frame_id ids) (joined (map (λ d. d.1) found)))

  one_request :
      set_of (map snapshot_id_of ids) ≡ sid ∷ []
      → derive_variables p ids s ≡ (ok (variables_of sid 0 stack), s')
  unfolding derive_variables
  one_request e =
      >>=-ok (all_of (detail_frames p) (set_of (map snapshot_id_of ids))) kept (
        ap (λ sids. all_of (detail_frames p) sids s) e
        ∙ all_of-one (detail_frames p) sid detail_frames-ok)
      ∙ ap (λ vs. (ok (filter (λ v. has v.frame_id ids) vs), s'))
          (append-nil (variables_of sid 0 stack))
      ∙ ap (λ vs. (ok vs, s')) wanted_all

  -- Asked for the frames of one snapshot, by the ids that `deriveStackFrames` gives them,
  -- `deriveVariables` fetches that snapshot once and yields all its variables; the snapshot's id has
  -- no colon, and its stack is not empty.
  pub derive_variables-frames :
      (f : Frame) (fs : List Frame)
      → stack ≡ f ∷ fs
      → (derive_stack_frames p sid s ≡ (ok (frames_of sid 0 stack), s'))
        × (derive_variables p (map (λ r. r.id) (frames_of sid 0 stack)) s
            ≡ (ok (variables_of sid 0 stack), s'))
  derive_variables-frames f fs e = (
    derive_stack_frames-ok,
    one_request (
        ap (λ stk. set_of (map snapshot_id_of (map (λ r. r.id) (frames_of sid 0 stk)))) e
        ∙ snapshot_ids sid plain f fs),
  )
