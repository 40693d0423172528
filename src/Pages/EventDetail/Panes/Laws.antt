-- ===== src/Pages/EventDetail/Panes/Laws.antt =====
-- What the panes of the page of an event show.
use jvm_scout.Base.{
  ℕ, ◌+◌, ◌-◌, ◌<◌, ◌≡◌, refl, ap, ◌∙◌, sym, arith, inl, inr, ◌∷◌, [], ◌++◌, List, none, Bool,
  Bool-cases, true, false, Text, codes, text_dec, nat_dec, has, filter, filter-append, length, drop,
  starts_with, includes, split_on, split_on-append, split_on_of_Lacks, cons_first, append_assoc,
  subst, Lacks, All, if◌then◌else◌, ◌==◌,
}
use jvm_scout.Client.Frames.{FrameRow}
use jvm_scout.Pages.EventDetail.{Search, occ_index}
use jvm_scout.Pages.EventDetail.Trace.{
  TraceRow, frame, collapsed, trace_rows, frames_in, IsFolded, IsLibrary, frames_in-trace_rows,
}
use jvm_scout.Pages.EventDetail.Panes.{
  on_prev, on_next, group_frames, listed_frames, last_of, short_class, without_first, shown_class,
}

abbrev is_user : FrameRow → Bool
is_user f = f.in_user_code

no_user_in : (fs : List FrameRow) → All IsLibrary fs → filter is_user fs ≡ []
no_user_in [] h = refl
no_user_in (f ∷ fs) (p, h) = ground (arith, no_user_in fs h)

no_user_in_group :
    (expanded : List ℕ) (fs : List FrameRow)
    → All IsLibrary fs
    → filter is_user (group_frames expanded fs) ≡ []
no_user_in_group expanded [] h = refl
no_user_in_group expanded (f ∷ fs) h = elim (Bool-cases (has f.frame_index expanded)) [
  | inl e ↦ rw (e) (no_user_in (f ∷ fs) h)
  | inr e ↦ rw (e) refl
]

filter-listed_frames :
    (expanded : List ℕ) (rs : List TraceRow)
    → All IsFolded rs
    → filter is_user (listed_frames expanded rs) ≡ filter is_user (frames_in rs)
unfolding listed_frames
filter-listed_frames expanded [] h = refl
filter-listed_frames expanded (frame f ∷ rs) (p, h) =
    ground (arith, filter-listed_frames expanded rs h)
filter-listed_frames expanded (collapsed fs ∷ rs) ((p, library), h) =
    filter-append is_user (group_frames expanded fs) (listed_frames expanded rs)
    ∙ ap (◌++ filter is_user (listed_frames expanded rs)) (no_user_in_group expanded fs library)
    ∙ filter-listed_frames expanded rs h
    ∙ ap (◌++ filter is_user (frames_in rs)) (sym (no_user_in fs library))
    ∙ sym (filter-append is_user fs (frames_in rs))

-- Whichever groups are open, the stack trace lists all frames in user code, in their order.
pub filter-listed_frames-trace_rows :
    (expanded : List ℕ) (fs : List FrameRow)
    → filter (λ f. f.in_user_code) (listed_frames expanded (trace_rows fs))
      ≡ filter (λ f. f.in_user_code) fs
filter-listed_frames-trace_rows expanded fs =
    let (same, folded, _) = frames_in-trace_rows fs in
    filter-listed_frames expanded (trace_rows fs) folded ∙ ap (filter is_user) same

-- Where `Next` is not disabled, it shows the next occurrence, and `Previous` then the one before again;
-- both forget the frame.
pub occ_index-steps :
    (search : Search) (count : ℕ)
    → occ_index search count + 1 < count
    → (occ_index (on_next search count) count ≡ occ_index search count + 1)
      × (occ_index (on_prev (on_next search count) count) count ≡ occ_index search count)
      × ((on_next search count).frame ≡ none)
      × ((on_prev search count).frame ≡ none)
unfolding occ_index on_next on_prev
occ_index-steps search count h = (omega arith, omega arith, refl, refl)

-- At either end the steps stay.
occ_index-ends :
    (search : Search) (count : ℕ)
    → 0 < count
    → (occ_index (on_next search count) count < count)
      × (occ_index (on_prev search count) count ≡ occ_index search count - 1)
unfolding occ_index on_next on_prev
occ_index-ends search count h = (omega arith, omega arith)

not_at :
    (part folder rest : Text)
    → Lacks 46 part
    → starts_with part folder ≡ false
    → starts_with part (folder ++ 46 ∷ rest) ≡ false
unfolding starts_with
not_at [] folder rest l h = absurd (ground arith)
not_at (a ∷ p) [] rest (d, l) h = ground arith
not_at (a ∷ p) (b ∷ s) rest (d, l) h = ground (arith, not_at p s rest l)

starts_with_self : (s : Text) → starts_with s s ≡ true
unfolding starts_with
starts_with_self [] = refl
starts_with_self (c ∷ s) = ground (arith, starts_with_self s)

drop_whole : (s : Text) → drop (length s) s ≡ []
drop_whole [] = refl
drop_whole (c ∷ s) = drop_whole s

without_first_here :
    (part s : Text) (c : ℕ)
    → starts_with part (c ∷ s) ≡ true
    → without_first part (c ∷ s) ≡ drop (length part) (c ∷ s)
unfolding without_first
without_first_here part s c h = simp (h)

without_first_later :
    (part s : Text) (c : ℕ)
    → starts_with part (c ∷ s) ≡ false
    → without_first part (c ∷ s) ≡ c ∷ without_first part s
unfolding without_first
without_first_later part s c h = simp (h)

not_in_tail :
    (part s : Text) (c : ℕ)
    → includes part (c ∷ s) ≡ false
    → (starts_with part (c ∷ s) ≡ false) × (includes part s ≡ false)
unfolding includes
not_in_tail part s c h = (ground arith, ground arith)

not_in_nil : (part : Text) → includes part [] ≡ false → starts_with part [] ≡ false
unfolding includes
not_in_nil part h = h

includes_nothing : (s : Text) → includes [] s ≡ true
unfolding includes starts_with
includes_nothing [] = refl
includes_nothing (c ∷ s) = refl

without_last :
    (part folder : Text)
    → Lacks 46 part
    → includes part folder ≡ false
    → without_first part (folder ++ 46 ∷ part) ≡ folder ++ codes "."
without_last [] folder l h = absurd (cc (includes_nothing folder))
without_last (a ∷ p) [] l h =
    without_first_later (a ∷ p) (a ∷ p) 46 (not_at (a ∷ p) [] (a ∷ p) l (not_in_nil (a ∷ p) h))
    ∙ ap (46 ∷◌) (without_first_here (a ∷ p) p a (starts_with_self (a ∷ p)) ∙ drop_whole p)
without_last (a ∷ p) (b ∷ s) l h =
    let (no_start, rest) = not_in_tail (a ∷ p) s b h in
    without_first_later (a ∷ p) (s ++ 46 ∷ a ∷ p) b (not_at (a ∷ p) (b ∷ s) (a ∷ p) l no_start)
    ∙ ap (b ∷◌) (without_last (a ∷ p) s l rest)

-- The last of two parts or more.
abbrev EndsIn : Text → Text → List Text → Type 0
EndsIn d part [] = ⊥
EndsIn d part (t ∷ []) = ⊥
EndsIn d part (t ∷ u ∷ us) = last_of d (u ∷ us) ≡ part

EndsIn-cons : (d part t : Text) (ts : List Text) → EndsIn d part ts → EndsIn d part (t ∷ ts)
EndsIn-cons d part t [] h = absurd h
EndsIn-cons d part t (u ∷ []) h = absurd h
EndsIn-cons d part t (u ∷ v ∷ vs) h = h

EndsIn-cons_first :
    (d part : Text) (c : ℕ) (ts : List Text) → EndsIn d part ts → EndsIn d part (cons_first c ts)
EndsIn-cons_first d part c [] h = absurd h
EndsIn-cons_first d part c (t ∷ []) h = absurd h
EndsIn-cons_first d part c (t ∷ u ∷ us) h = h

EndsIn-if :
    (d part : Text) (b : Bool) (xs ys : List Text)
    → EndsIn d part xs
    → EndsIn d part ys
    → EndsIn d part (if b then xs else ys)
EndsIn-if d part true xs ys h k = h
EndsIn-if d part false xs ys h k = k

EndsIn-split_on :
    (d part folder : Text) → Lacks 46 part → EndsIn d part (split_on 46 (folder ++ 46 ∷ part))
unfolding split_on
EndsIn-split_on d part [] l =
    subst (EndsIn d part)
      (sym (split_on-append 46 [] part tt ∙ ap ([] ∷◌) (split_on_of_Lacks 46 part l))) refl
EndsIn-split_on d part (c ∷ s) l =
    let rest = EndsIn-split_on d part s l in
    EndsIn-if d part (c == 46) ([] ∷ split_on 46 (s ++ 46 ∷ part))
      (cons_first c (split_on 46 (s ++ 46 ∷ part)))
      (EndsIn-cons d part [] (split_on 46 (s ++ 46 ∷ part)) rest)
      (EndsIn-cons_first d part c (split_on 46 (s ++ 46 ∷ part)) rest)

last_of-EndsIn : (d part : Text) (ts : List Text) → EndsIn d part ts → last_of d ts ≡ part
last_of-EndsIn d part [] h = absurd h
last_of-EndsIn d part (t ∷ []) h = absurd h
last_of-EndsIn d part (t ∷ u ∷ us) h = h

-- The stack trace shows the whole name of a class in a package, if the class's own name does not occur
-- in the name of the package.
pub shown_class-name :
    (folder part : Text)
    → Lacks 46 part
    → includes part folder ≡ false
    → shown_class (folder ++ 46 ∷ part) ≡ folder ++ 46 ∷ part
unfolding shown_class short_class
shown_class-name folder part l h =
    let name = folder ++ 46 ∷ part in
    let short = last_of-EndsIn name part (split_on 46 name) (EndsIn-split_on name part folder l) in
    ap (λ t. without_first t name ++ t) short
    ∙ ap (◌++ part) (without_last part folder l h)
    ∙ append_assoc folder (codes ".") part
