-- ===== src/Client/Frames/Asked.antt =====
-- `deriveVariables`, asked for the frames of one snapshot in any order.
use jvm_scout.Base.{
  ℕ, suc, ◌≡◌, refl, ap, ◌∙◌, arith, ◌∷◌, [], List, some, true, map, filter, Text, text_dec, Lacks,
  set_of, add_all, add, has, append-nil, All,
}
use jvm_scout.Client.Endpoints.{Frame, Detail}
use jvm_scout.Client.Http.{Platform, ClientState, Effect, ok, pure, >>=-ok}
use jvm_scout.Client.Promises.{all_of, all_of-one}
use jvm_scout.Client.Frames.{
  FrameRow, VariableRow, colon, index_of, frames_of, variables_of, stack_of, snapshot_id_of, joined,
  fetch_exception_detail, detail_frames, derive_variables,
}
use jvm_scout.Client.Frames.Laws.{
  snapshot_id_of-with_index, filter_wanted, variables_of-IsWanted, detail_frames-ok,
}

add_all_same :
    (sid : Text) (ts : List Text) → All (λ t. t ≡ sid) ts → add_all (sid ∷ []) ts ≡ sid ∷ []
unfolding add_all add has
add_all_same sid [] h = refl
add_all_same sid (t ∷ ts) (e, h) = ground (arith, add_all_same sid ts h)

-- A set of equal texts.
pub set_of_same :
    (sid t : Text) (ts : List Text) → All (λ u. u ≡ sid) (t ∷ ts) → set_of (t ∷ ts) ≡ sid ∷ []
unfolding set_of add_all add has
set_of_same sid t ts (e, h) = ap (λ u. add_all (u ∷ []) ts) e ∙ add_all_same sid ts h

-- The ids of the frames name the snapshot.
pub frames_of-snapshot :
    (sid : Text) (i : ℕ) (fs : List Frame)
    → Lacks colon sid
    → All (λ r. snapshot_id_of r.id ≡ sid) (frames_of sid i fs)
unfolding frames_of
frames_of-snapshot sid i [] h = tt
frames_of-snapshot sid i (f ∷ fs) h =
    (snapshot_id_of-with_index sid (index_of i f) h, frames_of-snapshot sid (suc i) fs h)

module _ {World : Type 0} (p : Platform World) (sid : Text) (plain : Lacks colon sid) (d : Detail)
    (s s' : ClientState World) (answered : fetch_exception_detail p sid s ≡ (ok (some d), s'))
    (ids : List Text)
    (covers : All (λ r. has r.id ids ≡ true) (frames_of sid 0 (stack_of (some d)))) where
  abbrev kept : List (List FrameRow × List VariableRow) → Effect World (List VariableRow)
  kept found = pure (filter (λ v. has v.frame_id ids) (joined (map (λ d. d.1) found)))

  -- Asked for all frames of a snapshot, and for no others, it fetches the snapshot once and yields all
  -- its variables.
  pub derive_variables-covered :
      set_of (map snapshot_id_of ids) ≡ sid ∷ []
      → derive_variables p ids s ≡ (ok (variables_of sid 0 (stack_of (some d))), s')
  unfolding derive_variables
  derive_variables-covered e =
      let found = variables_of sid 0 (stack_of (some d)) in
      >>=-ok (all_of (detail_frames p) (set_of (map snapshot_id_of ids))) kept (
        ap (λ sids. all_of (detail_frames p) sids s) e
        ∙ all_of-one (detail_frames p) sid (detail_frames-ok p sid plain d s s' answered))
      ∙ ap (λ vs. (ok (filter (λ v. has v.frame_id ids) vs), s')) (append-nil found)
      ∙ ap (λ vs. (ok vs, s'))
          (filter_wanted ids found (variables_of-IsWanted ids sid 0 (stack_of (some d)) covers))
