-- ===== src/Pages/EventDetail/Trace.antt =====
-- `rows` of StackTrace in frontend/src/routes/_authenticated/events.$id.tsx: runs of library frames
-- are folded into one row.
use jvm_scout.Base.{
  ◌≡◌, ◌≤◌, refl, sym, ap, ◌∙◌, inl, inr, ◌∷◌, [], ◌++◌, List, Bool, true, false, ◌&&◌, length, All,
  append_assoc, append-nil, Bool-cases, arith,
}
use jvm_scout.Client.Frames.{FrameRow}

pub data TraceRow : Type 0 where
  frame : FrameRow → TraceRow
  collapsed : List FrameRow → TraceRow

-- `flush`: the rows that it pushes.
abbrev pub flush : List FrameRow → List TraceRow
flush [] = []
flush (f ∷ []) = frame f ∷ []
flush (f ∷ g ∷ fs) = collapsed (f ∷ g ∷ fs) ∷ []

-- The loop over the frames, from a buffer.
unfoldable pub trace_from : List FrameRow → List FrameRow → List TraceRow
trace_from buffer [] = flush buffer
trace_from buffer (f ∷ fs) = elim f.in_user_code [
  | true ↦ flush buffer ++ frame f ∷ trace_from [] fs
  | false ↦ trace_from (buffer ++ f ∷ []) fs
]

unfoldable pub trace_rows : List FrameRow → List TraceRow
trace_rows frames = trace_from [] frames

-- The frames of the rows, in their order.
abbrev pub frames_in : List TraceRow → List FrameRow
frames_in [] = []
frames_in (frame f ∷ rs) = f ∷ frames_in rs
frames_in (collapsed fs ∷ rs) = fs ++ frames_in rs

abbrev pub IsLibrary : FrameRow → Type 0
IsLibrary f = f.in_user_code ≡ false

-- A folded row holds two library frames or more.
abbrev pub IsFolded : TraceRow → Type 0
IsFolded (frame f) = Unit
IsFolded (collapsed fs) = (2 ≤ length fs) × All IsLibrary fs

-- The row holds library frames.
abbrev pub is_library : TraceRow → Bool
is_library (frame f) = elim f.in_user_code [ true ↦ false | false ↦ true ]
is_library (collapsed fs) = true

abbrev pub starts_in_library : List TraceRow → Bool
starts_in_library [] = false
starts_in_library (r ∷ rs) = is_library r

-- No two rows of library frames stand next to each other.
abbrev pub Alternates : List TraceRow → Type 0
Alternates [] = Unit
Alternates (r ∷ rs) = ((is_library r && starts_in_library rs) ≡ false) × Alternates rs

frames_in-flush :
    (buffer : List FrameRow) (rs : List TraceRow)
    → frames_in (flush buffer ++ rs) ≡ buffer ++ frames_in rs
frames_in-flush [] rs = refl
frames_in-flush (f ∷ []) rs = refl
frames_in-flush (f ∷ g ∷ fs) rs = refl

trace_from_user :
    (buffer fs : List FrameRow) (f : FrameRow)
    → f.in_user_code ≡ true
    → trace_from buffer (f ∷ fs) ≡ flush buffer ++ frame f ∷ trace_from [] fs
unfolding trace_from
trace_from_user buffer fs f user = simp (user)

trace_from_library :
    (buffer fs : List FrameRow) (f : FrameRow)
    → f.in_user_code ≡ false
    → trace_from buffer (f ∷ fs) ≡ trace_from (buffer ++ f ∷ []) fs
unfolding trace_from
trace_from_library buffer fs f library = simp (library)

frames_in-trace_from :
    (buffer frames : List FrameRow) → frames_in (trace_from buffer frames) ≡ buffer ++ frames
unfolding trace_from
frames_in-trace_from buffer [] =
    ap frames_in (sym (append-nil (flush buffer))) ∙ frames_in-flush buffer []
frames_in-trace_from buffer (f ∷ fs) = elim (Bool-cases f.in_user_code) [
  | inl user ↦ rw (trace_from_user buffer fs f user) (
      frames_in-flush buffer (frame f ∷ trace_from [] fs)
      ∙ ap (λ rest. buffer ++ f ∷ rest) (frames_in-trace_from [] fs))
  | inr library ↦
      rw (trace_from_library buffer fs f library)
        (frames_in-trace_from (buffer ++ f ∷ []) fs ∙ append_assoc buffer (f ∷ []) fs)
]

All-append :
    (P : TraceRow → Type 0) (xs ys : List TraceRow) → All P xs → All P ys → All P (xs ++ ys)
All-append P [] ys h k = k
All-append P (x ∷ xs) ys (p, h) k = (p, All-append P xs ys h k)

All-snoc :
    (buffer : List FrameRow) (f : FrameRow)
    → All IsLibrary buffer
    → IsLibrary f
    → All IsLibrary (buffer ++ f ∷ [])
All-snoc [] f h e = (e, tt)
All-snoc (x ∷ xs) f (p, h) e = (p, All-snoc xs f h e)

flush-IsFolded : (buffer : List FrameRow) → All IsLibrary buffer → All IsFolded (flush buffer)
flush-IsFolded [] h = tt
flush-IsFolded (f ∷ []) h = (tt, tt)
flush-IsFolded (f ∷ g ∷ fs) h = ((omega arith, h), tt)

trace_from-IsFolded :
    (buffer frames : List FrameRow) → All IsLibrary buffer → All IsFolded (trace_from buffer frames)
unfolding trace_from
trace_from-IsFolded buffer [] h = flush-IsFolded buffer h
trace_from-IsFolded buffer (f ∷ fs) h = elim (Bool-cases f.in_user_code) [
  | inl user ↦ rw (trace_from_user buffer fs f user) (
      All-append IsFolded (flush buffer) _ (flush-IsFolded buffer h)
        (tt, trace_from-IsFolded [] fs tt))
  | inr library ↦
      rw (trace_from_library buffer fs f library)
        (trace_from-IsFolded (buffer ++ f ∷ []) fs (All-snoc buffer f h library))
]

flush-Alternates :
    (buffer : List FrameRow) (f : FrameRow) (rest : List TraceRow)
    → All IsLibrary buffer
    → f.in_user_code ≡ true
    → Alternates rest
    → Alternates (flush buffer ++ frame f ∷ rest)
flush-Alternates [] f rest h user a = (simp (user), a)
flush-Alternates (x ∷ []) f rest (p, h) user a = (simp (user, p), (simp (user), a))
flush-Alternates (x ∷ y ∷ ys) f rest h user a = (simp (user), (simp (user), a))

last-Alternates : (buffer : List FrameRow) → All IsLibrary buffer → Alternates (flush buffer)
last-Alternates [] h = tt
last-Alternates (x ∷ []) (p, h) = (simp (p), tt)
last-Alternates (x ∷ y ∷ ys) h = (refl, tt)

trace_from-Alternates :
    (buffer frames : List FrameRow) → All IsLibrary buffer → Alternates (trace_from buffer frames)
unfolding trace_from
trace_from-Alternates buffer [] h = last-Alternates buffer h
trace_from-Alternates buffer (f ∷ fs) h = elim (Bool-cases f.in_user_code) [
  | inl user ↦
      rw (trace_from_user buffer fs f user)
        (flush-Alternates buffer f _ h user (trace_from-Alternates [] fs tt))
  | inr library ↦
      rw (trace_from_library buffer fs f library)
        (trace_from-Alternates (buffer ++ f ∷ []) fs (All-snoc buffer f h library))
]

-- The stack trace's rows hold the frames in their order, each once. A folded row holds two or more
-- frames, none in user code, and no two rows of library frames stand next to each other.
pub frames_in-trace_rows :
    (frames : List FrameRow)
    → (frames_in (trace_rows frames) ≡ frames)
      × All IsFolded (trace_rows frames)
      × Alternates (trace_rows frames)
unfolding trace_rows
frames_in-trace_rows frames = (
  frames_in-trace_from [] frames,
  trace_from-IsFolded [] frames tt,
  trace_from-Alternates [] frames tt,
)
