-- ===== src/Base/Sort.antt =====
-- `Array.prototype.sort` with a comparator: a stable sort, here by insertion. For a comparator that
-- orders the elements totally, a stable sort has one result, whatever the engine's algorithm.
use Prim.Native.Nat.{ℕ, suc, ◌-◌, Ordering}
use mathlib.Core.Path.{◌≡◌, refl, ap, ◌∙◌, sym, subst}
use mathlib.Core.Logic.{inl, inr, ◌↔◌}
use mathlib.Core.Bool.{Bool, true, false}
use mathlib.Core.Option.{some}
use mathlib.Core.List.{List, [], ◌∷◌, Perm, map}
use mathlib.Core.List.Perm
use native.Mathlib.Omega.{arith}
use jvm_scout.Base.Tests.{if◌then◌else◌, Bool-cases}
use jvm_scout.Base.Lists.{All, Mem, Nodup, length, get_elem?, All-Mem, get_elem?-Mem}
use jvm_scout.Base.Strings.{Text, text_dec, str_lt, str_lt_asymm, str_lt_trans, str_lt_connex}

-- The sign of a comparator's result: `lt` for a negative number, `gt` for a positive one.
abbrev pub Comparator : Type 0 → Type 0
Comparator A = A → A → Ordering

abbrev pub is_gt : Ordering → Bool
is_gt Ordering.gt = true
is_gt _ = false

abbrev pub is_lt : Ordering → Bool
is_lt Ordering.lt = true
is_lt _ = false

abbrev pub flip_sign : Ordering → Ordering
flip_sign Ordering.lt = Ordering.gt
flip_sign Ordering.eq = Ordering.eq
flip_sign Ordering.gt = Ordering.lt

module _ {A : Type 0} (cmp : Comparator A) where
  insert_sorted : A → List A → List A
  insert_sorted x [] = x ∷ []
  insert_sorted x (y ∷ ys) = if is_gt (cmp x y) then y ∷ insert_sorted x ys else x ∷ y ∷ ys

  unfoldable pub sort_by : List A → List A
  unfolding insert_sorted
  sort_by [] = []
  sort_by (x ∷ xs) = insert_sorted x (sort_by xs)

  -- Each element stands before none that the comparator puts before it.
  abbrev pub Sorted : List A → Type 0
  Sorted [] = Unit
  Sorted (x ∷ xs) = All (λ y. is_gt (cmp x y) ≡ false) xs × Sorted xs

  insert_sorted-perm : (x : A) (xs : List A) → Perm (insert_sorted x xs) (x ∷ xs)
  unfolding insert_sorted
  insert_sorted-perm x [] = Perm.refl _
  insert_sorted-perm x (y ∷ ys) = elim (Bool-cases (is_gt (cmp x y))) [
    | inl after ↦ rw after (Perm.trans (Perm.cons y (insert_sorted-perm x ys)) (Perm.swap x y ys))
    | inr before ↦ rw before (Perm.refl _)
  ]

  pub sort_by-perm : (xs : List A) → Perm (sort_by xs) xs
  unfolding sort_by
  sort_by-perm [] = Perm.refl _
  sort_by-perm (x ∷ xs) =
      Perm.trans (insert_sorted-perm x (sort_by xs)) (Perm.cons x (sort_by-perm xs))

  All-insert_sorted {κ} :
      (P : A → Type κ) (x : A) (xs : List A) → P x → All P xs → All P (insert_sorted x xs)
  unfolding insert_sorted
  All-insert_sorted P x [] p h = (p, tt)
  All-insert_sorted P x (y ∷ ys) p (q, h) = elim (Bool-cases (is_gt (cmp x y))) [
    | inl after ↦ rw after (q, All-insert_sorted P x ys p h)
    | inr before ↦ rw before (p, (q, h))
  ]

  pub All-sort_by {κ} : (P : A → Type κ) (xs : List A) → All P xs → All P (sort_by xs)
  unfolding sort_by
  All-sort_by P [] h = tt
  All-sort_by P (x ∷ xs) (p, h) = All-insert_sorted P x (sort_by xs) p (All-sort_by P xs h)

  Mem-insert_sorted : (a x : A) (xs : List A) → Mem a (insert_sorted x xs) ↔ Mem a (x ∷ xs)
  unfolding insert_sorted
  Mem-insert_sorted a x [] = (λ m. m, λ m. m)
  Mem-insert_sorted a x (y ∷ ys) = grind (arith, Mem-insert_sorted a x ys)

  pub Mem-sort_by : (a : A) (xs : List A) → Mem a (sort_by xs) ↔ Mem a xs
  unfolding sort_by
  Mem-sort_by a [] = (λ m. m, λ m. m)
  Mem-sort_by a (x ∷ xs) = grind (arith, Mem-insert_sorted a x (sort_by xs), Mem-sort_by a xs)

  module _ {B : Type 0} (f : A → B) where
    Mem-map-insert_sorted :
        (b : B) (x : A) (xs : List A) → Mem b (map f (insert_sorted x xs)) → Mem b (map f (x ∷ xs))
    unfolding insert_sorted
    Mem-map-insert_sorted b x [] m = m
    Mem-map-insert_sorted b x (y ∷ ys) m = grind (arith, Mem-map-insert_sorted b x ys)

    insert_sorted-Nodup :
        (x : A) (xs : List A)
        → (¬ Mem (f x) (map f xs))
        → Nodup (map f xs)
        → Nodup (map f (insert_sorted x xs))
    unfolding insert_sorted
    insert_sorted-Nodup x [] new n = (new, n)
    insert_sorted-Nodup x (y ∷ ys) new (fresh, n) = elim (Bool-cases (is_gt (cmp x y))) [
      | inl after ↦ rw after (
        (λ m. elim (Mem-map-insert_sorted (f y) x ys m) [
          | inl e ↦ new (inl (sym e))
          | inr old ↦ fresh old
        ]),
        insert_sorted-Nodup x ys (λ m. new (inr m)) n,
      )
      | inr before ↦ rw before (new, (fresh, n))
    ]

    Mem-map-sort_by : (b : B) (xs : List A) → Mem b (map f (sort_by xs)) → Mem b (map f xs)
    unfolding sort_by
    Mem-map-sort_by b [] m = m
    Mem-map-sort_by b (x ∷ xs) m = elim (Mem-map-insert_sorted b x (sort_by xs) m) [
      | inl e ↦ inl e
      | inr old ↦ inr (Mem-map-sort_by b xs old)
    ]

    -- Sorting keeps keys apart.
    pub sort_by-Nodup : (xs : List A) → Nodup (map f xs) → Nodup (map f (sort_by xs))
    unfolding sort_by
    sort_by-Nodup [] n = n
    sort_by-Nodup (x ∷ xs) (new, n) =
        insert_sorted-Nodup x (sort_by xs) (λ m. new (Mem-map-sort_by (f x) xs m))
          (sort_by-Nodup xs n)

  length-insert_sorted : (x : A) (xs : List A) → length (insert_sorted x xs) ≡ suc (length xs)
  unfolding insert_sorted
  length-insert_sorted x [] = refl
  length-insert_sorted x (y ∷ ys) = ground (arith, length-insert_sorted x ys)

  pub length-sort_by : (xs : List A) → length (sort_by xs) ≡ length xs
  unfolding sort_by
  length-sort_by [] = refl
  length-sort_by (x ∷ xs) = ground (arith, length-insert_sorted x (sort_by xs), length-sort_by xs)

-- Sorting by a comparator of images is sorting the images.
insert_sorted-map :
    {A B : Type 0} (cmp : Comparator B) (f : A → B) (x : A) (xs : List A)
    → insert_sorted cmp (f x) (map f xs) ≡ map f (insert_sorted (λ a b. cmp (f a) (f b)) x xs)
unfolding insert_sorted
insert_sorted-map cmp f x [] = refl
insert_sorted-map cmp f x (y ∷ ys) = ground (arith, insert_sorted-map cmp f x ys)

pub sort_by-map :
    {A B : Type 0} (cmp : Comparator B) (f : A → B) (xs : List A)
    → sort_by cmp (map f xs) ≡ map f (sort_by (λ a b. cmp (f a) (f b)) xs)
unfolding sort_by
sort_by-map cmp f [] = refl
sort_by-map cmp f (x ∷ xs) =
    ap (insert_sorted cmp (f x)) (sort_by-map cmp f xs) ∙ insert_sorted-map cmp f x _

suc-sub-one : (n : ℕ) → suc n - 1 ≡ n
suc-sub-one n = omega arith

-- A comparator that orders the elements with `P`: what a stable sort needs to be determined.
pub record IsOrder {A : Type 0} (P : A → Type 0) (cmp : Comparator A) : Type 0 where
  pub asymm : (x y : A) → P x → P y → is_gt (cmp x y) ≡ true → is_gt (cmp y x) ≡ false
  pub trans :
      (x y z : A)
      → P x
      → P y
      → P z
      → is_gt (cmp x y) ≡ false
      → is_gt (cmp y z) ≡ false
      → is_gt (cmp x z) ≡ false

module _ {A : Type 0} (P : A → Type 0) (cmp : Comparator A) (order : IsOrder P cmp) where
  after_each :
      (x y : A) (ys : List A)
      → P x
      → P y
      → All P ys
      → is_gt (cmp x y) ≡ false
      → All (λ z. is_gt (cmp y z) ≡ false) ys
      → All (λ z. is_gt (cmp x z) ≡ false) ys
  after_each x y [] p q h e s = tt
  after_each x y (z ∷ ys) p q (r, h) e (b, s) =
      (order.trans x y z p q r e b, after_each x y ys p q h e s)

  insert_sorted-Sorted :
      (x : A) (xs : List A) → P x → All P xs → Sorted cmp xs → Sorted cmp (insert_sorted cmp x xs)
  unfolding insert_sorted
  insert_sorted-Sorted x [] p h s = (tt, tt)
  insert_sorted-Sorted x (y ∷ ys) p (q, h) (b, s) = elim (Bool-cases (is_gt (cmp x y))) [
    | inl after ↦ rw after (
      All-insert_sorted cmp (λ z. is_gt (cmp y z) ≡ false) x ys (order.asymm x y p q after) b,
      insert_sorted-Sorted x ys p h s,
    )
    | inr before ↦ rw before ((before, after_each x y ys p q h before b), (b, s))
  ]

  pub sort_by-Sorted : (xs : List A) → All P xs → Sorted cmp (sort_by cmp xs)
  unfolding sort_by
  sort_by-Sorted [] h = tt
  sort_by-Sorted (x ∷ xs) (p, h) =
      insert_sorted-Sorted x (sort_by cmp xs) p (All-sort_by cmp P xs h) (sort_by-Sorted xs h)

  -- The last element of a sorted list is before none of the others.
  pub Sorted-last :
      (xs : List A) (l : A)
      → All P xs
      → Sorted cmp xs
      → get_elem? xs (length xs - 1) ≡ some l
      → All (λ x. is_gt (cmp x l) ≡ false) xs
  Sorted-last [] l h s e = tt
  Sorted-last (x ∷ []) l (p, h) s e = (subst (λ y. is_gt (cmp x y) ≡ false) (cc) (self x p), tt)
    where
      self : (y : A) → P y → is_gt (cmp y y) ≡ false
      self y q = elim (Bool-cases (is_gt (cmp y y))) [
        | inl after ↦ order.asymm y y q q after
        | inr before ↦ before
      ]
  Sorted-last (x ∷ y ∷ xs) l (p, h) (b, s) e =
      let e' : get_elem? (y ∷ xs) (length (y ∷ xs) - 1) ≡ some l =
        rw (suc-sub-one (length xs)) (rw (suc-sub-one (suc (length xs))) at e) in
      (
        All-Mem (λ z. is_gt (cmp x z) ≡ false) (y ∷ xs) l b (get_elem?-Mem (y ∷ xs) _ l e'),
        Sorted-last (y ∷ xs) l h s e',
      )

-- The default order of `sort()` on texts.
abbrev pub compare_text : Comparator Text
compare_text a b =
    if str_lt a b then Ordering.lt else if str_lt b a then Ordering.gt else Ordering.eq

pub compare_text-IsOrder : IsOrder (λ _. Unit {0}) compare_text
compare_text-IsOrder = record {
  asymm = λ x y _ _. ground (arith, str_lt_asymm x y);
  trans = λ x y z _ _. ground (
    arith,
    str_lt_trans z y x,
    str_lt_trans x y z,
    str_lt_trans y x z,
    str_lt_trans x z y,
    str_lt_asymm x y,
    str_lt_asymm y z,
    str_lt_asymm x z,
    str_lt_connex x y,
    str_lt_connex y z,
  );
}
