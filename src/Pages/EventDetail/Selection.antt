-- ===== src/Pages/EventDetail/Selection.antt =====
-- The selection of frontend/src/routes/_authenticated/events.$id.tsx settles.
use jvm_scout.Base.{
  ◌<◌, ◌≡◌, refl, sym, subst, inl, inr, ◌∷◌, [], List, none, some, Bool, true, false, Bool-cases,
  Option-cases, nat_dec, length, get_elem?_of_lt, find, any, arith,
}
use jvm_scout.Client.Frames.{FrameRow}
use jvm_scout.Pages.Times.{first_of}
use jvm_scout.Pages.EventDetail.{
  Search, occ_index, current_snapshot, default_frame, index_or_zero, selected_index, has_index,
  selected_frame, settle_frame,
}

module _ {A : Type 0} (test : A → Bool) where
  find_of_any :
      (xs : List A) → any test xs ≡ true → (x : A) × ((find test xs ≡ some x) × (test x ≡ true))
  find_of_any [] h = cc
  find_of_any (x ∷ xs) h = elim (Bool-cases (test x)) [
    | inl passes ↦ rw passes (x, (refl, passes))
    | inr fails ↦ rw fails (find_of_any xs (rw fails at h))
  ]

  any_of_find :
      (other : A → Bool) (xs : List A) (x : A)
      → find test xs ≡ some x
      → other x ≡ true
      → any other xs ≡ true
  any_of_find other [] x e h = cc
  any_of_find other (y ∷ ys) x e h = elim (Bool-cases (test y)) [
    | inl passes ↦ ground arith
    | inr fails ↦ ground (arith, any_of_find other ys x (rw fails at e) h)
  ]

has_own_index : (f : FrameRow) → has_index f.frame_index f ≡ true
has_own_index f = ground arith

default_frame-some :
    (frames : List FrameRow) (g : FrameRow)
    → find (λ f. f.in_user_code) frames ≡ some g
    → default_frame frames ≡ g.frame_index
unfolding default_frame
default_frame-some frames g e = rw (e, default_frame) refl

default_frame-none :
    (frames : List FrameRow)
    → find (λ f. f.in_user_code) frames ≡ none
    → default_frame frames ≡ index_or_zero (first_of frames)
unfolding default_frame
default_frame-none frames e = rw (e, default_frame) refl

-- Some frame has the default index.
default_frame-any :
    (f : FrameRow) (fs : List FrameRow) → any (has_index (default_frame (f ∷ fs))) (f ∷ fs) ≡ true
default_frame-any f fs = elim (Option-cases (find (λ x. x.in_user_code) (f ∷ fs))) [
  | inl nothing ↦
      subst (λ i. any (has_index i) (f ∷ fs) ≡ true) (sym (default_frame-none (f ∷ fs) nothing))
        (ground (arith, has_own_index f))
  | inr (g, e) ↦
      subst (λ i. any (has_index i) (f ∷ fs) ≡ true) (sym (default_frame-some (f ∷ fs) g e))
        (any_of_find (λ x. x.in_user_code) (has_index g.frame_index) (f ∷ fs) g e (has_own_index g))
]

selected_of_any :
    (query : Search) (frames : List FrameRow)
    → any (has_index (selected_index query frames)) frames ≡ true
    → (g : FrameRow) × ((selected_frame query frames ≡ some g)
        × (has_index (selected_index query frames) g ≡ true))
unfolding selected_frame
selected_of_any query frames h =
    let (g, (e, own)) = find_of_any (has_index (selected_index query frames)) frames h in
    (g, (rw (selected_frame, e) refl, own))

settle_frame-there :
    (query : Search) (f : FrameRow) (fs : List FrameRow)
    → any (has_index (selected_index query (f ∷ fs))) (f ∷ fs) ≡ true
    → settle_frame (f ∷ fs) query ≡ query
unfolding settle_frame
settle_frame-there query f fs there = rw (settle_frame, there) refl

settle_frame-gone :
    (query : Search) (f : FrameRow) (fs : List FrameRow)
    → any (has_index (selected_index query (f ∷ fs))) (f ∷ fs) ≡ false
    → settle_frame (f ∷ fs) query ≡ record query { frame = none }
unfolding settle_frame
settle_frame-gone query f fs gone = rw (settle_frame, gone) refl

settled_any :
    (query : Search) (f : FrameRow) (fs : List FrameRow)
    → any (has_index (selected_index (settle_frame (f ∷ fs) query) (f ∷ fs))) (f ∷ fs) ≡ true
settled_any query f fs =
    elim (Bool-cases (any (has_index (selected_index query (f ∷ fs))) (f ∷ fs))) [
      | inl there ↦
          subst (λ q. any (has_index (selected_index q (f ∷ fs))) (f ∷ fs) ≡ true)
            (sym (settle_frame-there query f fs there)) there
      | inr gone ↦
          subst (λ q. any (has_index (selected_index q (f ∷ fs))) (f ∷ fs) ≡ true)
            (sym (settle_frame-gone query f fs gone)) (default_frame-any f fs)
    ]

-- When frames are there, the effect ends after one run, and then the frame that is shown has the
-- selected index.
pub settle_frame-selected_frame :
    (query : Search) (f : FrameRow) (fs : List FrameRow)
    → (settle_frame (f ∷ fs) (settle_frame (f ∷ fs) query) ≡ settle_frame (f ∷ fs) query)
      × ((g : FrameRow) × ((selected_frame (settle_frame (f ∷ fs) query) (f ∷ fs) ≡ some g)
            × (has_index (selected_index (settle_frame (f ∷ fs) query) (f ∷ fs)) g ≡ true)))
settle_frame-selected_frame query f fs = (
  settle_frame-there (settle_frame (f ∷ fs) query) f fs (settled_any query f fs),
  selected_of_any (settle_frame (f ∷ fs) query) (f ∷ fs) (settled_any query f fs),
)

-- The occurrence that is shown exists, whatever the address says, when there is one at all.
current_snapshot-some :
    {A : Type 0} (query : Search) (snapshots : List A)
    → 0 < length snapshots
    → (a : A) × (current_snapshot query snapshots ≡ some a)
unfolding current_snapshot occ_index
current_snapshot-some query snapshots h = get_elem?_of_lt snapshots _ (omega arith)
