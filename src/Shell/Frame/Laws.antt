-- ===== src/Shell/Frame/Laws.antt =====
-- Which items of the navigation are highlighted.
use jvm_scout.Base.{
  ℕ, ◌∷◌, [], ◌++◌, ◌≡◌, refl, ap, ◌∙◌, sym, arith, inl, inr, List, Bool, Bool-cases, true, false,
  Text, codes, text_dec, nat_dec, ℕ_discrete, text_discrete, starts_with, split_on, split_on-append,
  split_on_of_Lacks, Lacks, Mem, Nodup, All, All-Mem, Mem_of_key, not_Mem_of_has, has, not, ◌&&◌,
  map, ◌==◌, append_assoc,
}
use jvm_scout.Shell.Frame.{NavItem, nav, is_active_item}

-- `/` is the code unit 47.
abbrev slash : ℕ
slash = 47

-- A link to a page on the top level.
abbrev IsTopLevel : NavItem → Type 0
IsTopLevel item = (w : Text) × (item.to ≡ slash ∷ w) × Lacks slash w

rest_of_starts_with : (p s : Text) → starts_with p s ≡ true → (rest : Text) × (s ≡ p ++ rest)
unfolding starts_with
rest_of_starts_with [] s h = (s, refl)
rest_of_starts_with (a ∷ p) [] h = absurd (cc)
rest_of_starts_with (a ∷ p) (b ∷ s) h =
    let (rest, e) = rest_of_starts_with p s (ground arith) in
    let same : b ≡ a = ground arith in (rest, cc (same, e))

same_text : (s t : Text) → (s == t) ≡ true → s ≡ t
same_text s t h = ground arith

-- The first folder of the path is the one that the item names.
folder :
    (path : Text) (item : NavItem) (w : Text)
    → item.to ≡ slash ∷ w
    → Lacks slash w
    → is_active_item path item ≡ true
    → (rest : List Text) × (split_on slash path ≡ [] ∷ w ∷ rest)
unfolding is_active_item
folder path item w e l h = elim (Bool-cases (path == item.to)) [
  | inl here ↦
      let whole : path ≡ slash ∷ w = same_text path item.to here ∙ e in
      (
        [],
        ap (split_on slash) whole
            ∙ split_on-append slash [] w tt
            ∙ ap ([] ∷◌) (split_on_of_Lacks slash w l),
      )
  | inr below ↦
      let under : starts_with (item.to ++ codes "/") path ≡ true = ground arith in
      let (rest, f) = rest_of_starts_with (item.to ++ codes "/") path under in
      let whole : path ≡ slash ∷ (w ++ slash ∷ rest) =
        f
        ∙ ap (λ t. (t ++ codes "/") ++ rest) e
        ∙ ap (slash ∷◌) (append_assoc w (codes "/") rest) in
      (
        split_on slash rest,
        ap (split_on slash) whole
            ∙ split_on-append slash [] (w ++ slash ∷ rest) tt
            ∙ ap ([] ∷◌) (split_on-append slash w rest l),
      )
]

second : List Text → Text
second [] = []
second (t ∷ []) = []
second (t ∷ u ∷ ts) = u

one_folder :
    (path : Text) (a b : NavItem)
    → IsTopLevel a
    → IsTopLevel b
    → is_active_item path a ≡ true
    → is_active_item path b ≡ true
    → a.to ≡ b.to
unfolding second
one_folder path a b (w, e, l) (v, f, m) h k =
    let (rest, split_a) = folder path a w e l h in
    let (others, split_b) = folder path b v f m k in
    e ∙ ap (λ ts. slash ∷ second ts) (sym split_a ∙ split_b) ∙ sym f

distinct : List Text → Bool
distinct [] = true
distinct (t ∷ ts) = not (has t ts) && distinct ts

Nodup_of_distinct : (ts : List Text) → distinct ts ≡ true → Nodup ts
unfolding distinct
Nodup_of_distinct [] h = tt
Nodup_of_distinct (t ∷ ts) h =
    (not_Mem_of_has t ts (ground arith), Nodup_of_distinct ts (ground arith))

Lacks-of_has : (c : ℕ) (t : Text) → has c t ≡ false → Lacks c t
unfolding has
Lacks-of_has c [] h = tt
Lacks-of_has c (d ∷ t) h = (ground arith, Lacks-of_has c t (ground arith))

nav-Nodup : Nodup (map (λ (i : NavItem). i.to) nav)
unfolding nav distinct has text_discrete ℕ_discrete
nav-Nodup = Nodup_of_distinct (map (λ (i : NavItem). i.to) nav) refl

nav-IsTopLevel : All IsTopLevel nav
unfolding nav has ℕ_discrete
nav-IsTopLevel = (
  (codes "dashboard", refl, Lacks-of_has slash (codes "dashboard") refl),
  (
    (codes "events", refl, Lacks-of_has slash (codes "events") refl),
    (
      (codes "deployments", refl, Lacks-of_has slash (codes "deployments") refl),
      (
        (codes "applications", refl, Lacks-of_has slash (codes "applications") refl),
        (
          (codes "alerts", refl, Lacks-of_has slash (codes "alerts") refl),
          ((codes "settings", refl, Lacks-of_has slash (codes "settings") refl), tt),
        ),
      ),
    ),
  ),
)

-- At no path are two items of the navigation highlighted.
pub is_active_item_unique :
    (path : Text) (a b : NavItem)
    → Mem a nav
    → Mem b nav
    → is_active_item path a ≡ true
    → is_active_item path b ≡ true
    → a ≡ b
is_active_item_unique path a b m k h l =
    Mem_of_key (λ (i : NavItem). i.to) nav a b nav-Nodup m k
      (one_folder path a b (All-Mem IsTopLevel nav a nav-IsTopLevel m)
        (All-Mem IsTopLevel nav b nav-IsTopLevel k) h l)
