-- ===== src/Pages/EventDetail/Queries/Shown.antt =====
-- What `useSnapshotDetail` shows of a snapshot, down to the collector.
use jvm_scout.Base.{
  ℕ, ◌≡◌, refl, sym, subst, ap, ◌∙◌, arith, List, List-cases, [], ◌∷◌, inl, inr, Option, none, some,
  true, map, Text, codes, text_discrete, has, text_dec, has_of_Mem, Mem-map, ℕ_discrete, All,
  All-of_Mem, sort_by, All-sort_by, Mem-sort_by, length, length-sort_by, Lacks, set_of,
}
use jvm_scout.Client.Values.{Row}
use jvm_scout.Client.Http.{Platform, ClientState, Effect, ok, pure, ◌>>=◌, >>=-ok}
use jvm_scout.Client.Endpoints.{Detail, Frame}
use jvm_scout.Client.Frames.{
  FrameRow, fetch_exception_detail, frames_of, variables_of, stack_of, snapshot_id_of, colon,
}
use jvm_scout.Client.Frames.Asked.{set_of_same, frames_of-snapshot}
use jvm_scout.Adapter.Query.{is_config, apply_filters}
use jvm_scout.Adapter.Builder.{from, select, eq, order}
use jvm_scout.Adapter.Run.{rows, selected, source_rows, run, run_op}
use jvm_scout.Adapter.Tables.{frame_columns, variable_columns, load_read_table}
use jvm_scout.Adapter.Tables.Frames.{
  by_index, run-frames_query, run-variables_query, variables_query,
}
use jvm_scout.Pages.EventDetail.Queries.{
  SnapshotDetail, use_snapshot_detail, frames_and_logs, variables_for, of_snapshot,
}

names_snapshot :
    (sid : Text) (frames : List FrameRow)
    → All (λ r. snapshot_id_of r.id ≡ sid) frames
    → All (λ u. u ≡ sid) (map snapshot_id_of (map (λ r. r.id) frames))
names_snapshot sid [] h = tt
names_snapshot sid (f ∷ fs) (e, h) = (e, names_snapshot sid fs h)

module _ {World : Type 0} (p : Platform World) (iso : ℕ → Text) (time_of : Text → Option ℕ)
    (lower : Text → Text) (number : Text → Option ℕ) (sid : Text) (plain : Lacks colon sid)
    (d : Detail) (s s1 s2 : ClientState World)
    (first_answer : fetch_exception_detail p sid s ≡ (ok (some d), s1))
    (second_answer : fetch_exception_detail p sid s1 ≡ (ok (some d), s2)) where
  abbrev stack : List Frame
  stack = stack_of (some d)

  abbrev shown : List FrameRow
  shown = sort_by by_index (frames_of sid 0 stack)

  no_logs :
      (t : ClientState World)
      → run p number
          (load_read_table p iso time_of lower)
          (of_snapshot sid (codes "log_lines") (codes "timestamp"))
          t
        ≡ (record { value = rows []; error = none }, t)
  unfolding run run_op order eq select from source_rows load_read_table is_config has text_discrete
      ℕ_discrete selected apply_filters sort_by
  no_logs t = refl

  frames_and_logs_lem :
      frames_and_logs p number (load_read_table p iso time_of lower) sid s
      ≡ (ok (map frame_columns shown, []), s1)
  frames_and_logs_lem =
      rw (run-frames_query p iso time_of lower number sid plain d s s1 first_answer, no_logs s1)
        refl

  shown-covers : All (λ r. has r.id (map (λ r. r.id) shown) ≡ true) (frames_of sid 0 stack)
  shown-covers = All-of_Mem _ (frames_of sid 0 stack) (λ r m.
      has_of_Mem r.id (map (λ r. r.id) shown)
        (Mem-map (λ r. r.id) r shown ((Mem-sort_by by_index r (frames_of sid 0 stack)).1 m)))

  shown-one :
      (g : FrameRow) (gs : List FrameRow)
      → shown ≡ g ∷ gs
      → set_of (map snapshot_id_of (map (λ r. r.id) shown)) ≡ sid ∷ []
  shown-one g gs e =
      let named =
        names_snapshot sid shown
          (All-sort_by by_index _ (frames_of sid 0 stack) (frames_of-snapshot sid 0 stack plain)) in
      subst
        (λ rs.
          All (λ u. u ≡ sid) (map snapshot_id_of (map (λ r. r.id) rs))
          → set_of (map snapshot_id_of (map (λ r. r.id) rs)) ≡ sid ∷ [])
        (sym e)
        (λ h. set_of_same sid (snapshot_id_of g.id) (map snapshot_id_of (map (λ r. r.id) gs)) h)
        named

  abbrev collected : List Row
  collected = map variable_columns (variables_of sid 0 stack)

  variables_checked :
      (g : FrameRow) (gs : List FrameRow)
      → run p number (load_read_table p iso time_of lower) (variables_query (g ∷ gs)) s1
        ≡ (record { value = rows collected; error = none }, s2)
      → variables_for p number (load_read_table p iso time_of lower) (map frame_columns (g ∷ gs)) s1
        ≡ (ok collected, s2)
  variables_checked g gs h = rw h refl

  variables_shown :
      (g : FrameRow) (gs : List FrameRow)
      → shown ≡ g ∷ gs
      → variables_for p number (load_read_table p iso time_of lower) (map frame_columns shown) s1
        ≡ (ok (map variable_columns (variables_of sid 0 stack)), s2)
  variables_shown g gs e =
      subst
        (λ rs.
          run p number (load_read_table p iso time_of lower) (variables_query rs) s1
            ≡ (record { value = rows collected; error = none }, s2)
          → variables_for p number (load_read_table p iso time_of lower) (map frame_columns rs) s1
            ≡ (ok collected, s2))
        (sym e) (variables_checked g gs)
        (run-variables_query p iso time_of lower number sid plain d s1 s2 second_answer shown
          (shown-one g gs e) shown-covers)

  nothing_shown : (f : Frame) (fs : List Frame) → stack ≡ f ∷ fs → ¬ (shown ≡ [])
  unfolding frames_of
  nothing_shown f fs e none_shown =
      let size = length-sort_by by_index (frames_of sid 0 stack) in
      let zero_size = ap length none_shown in
      let some_size = ap (λ st. length (frames_of sid 0 st)) e in omega arith

  abbrev after_frames : List Row × List Row → Effect World SnapshotDetail
  after_frames both = do
    variables ← variables_for p number (load_read_table p iso time_of lower) both.0
    pure (record { frames = both.0; logs = both.1; variables = variables })

  -- The page of an event shows a snapshot, whose stack is not empty and whose id has no colon, as its
  -- detail tells: the frames in the order of their indices, no log lines, and all the variables that
  -- the detail lists under its frames. The collector answers the two requests for the detail alike.
  pub use_snapshot_detail-frames :
      (f : Frame) (fs : List Frame)
      → stack ≡ f ∷ fs
      → use_snapshot_detail p number (load_read_table p iso time_of lower) sid s ≡ (
        ok (record {
          frames = map frame_columns shown;
          logs = [];
          variables = map variable_columns (variables_of sid 0 stack);
        }),
        s2,
      )
  unfolding use_snapshot_detail
  use_snapshot_detail-frames f fs e = elim (List-cases shown) [
    | inl empty ↦ absurd (nothing_shown f fs e empty)
    | inr (g, gs, found) ↦
        >>=-ok (frames_and_logs p number (load_read_table p iso time_of lower) sid) after_frames
          frames_and_logs_lem
        ∙ >>=-ok
            (variables_for p number (load_read_table p iso time_of lower) (map frame_columns shown))
            (λ vs. pure (record { frames = map frame_columns shown; logs = []; variables = vs }))
            (variables_shown g gs found)
  ]
