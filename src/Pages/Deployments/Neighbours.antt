-- ===== src/Pages/Deployments/Neighbours.antt =====
-- The index of `findIndex`, and the element that stands before it in a sorted list.
use jvm_scout.Base.{
  ℕ, zero, suc, ◌≡◌, refl, sym, ap, ◌∙◌, subst, ◌⊎◌, inl, inr, arith, [], ◌∷◌, List, none, some,
  Bool, true, false, Bool-cases, Comparator, is_gt, IsOrder, Sorted, text_dec, nat_dec, map,
  get_elem?, All, All-Mem, Mem, Mem-map, Nodup,
}
use jvm_scout.Pages.Deployments.{find_index_from, find_index, before}

module _ {A : Type 0} (test : A → Bool) where
  pub find_index_from-suc :
      (i : ℕ) (xs : List A)
      → find_index_from test (suc i) xs
        ≡ elim (find_index_from test i xs) [ none ↦ none | some j ↦ some (suc j) ]
  find_index_from-suc i [] = refl
  find_index_from-suc i (x ∷ xs) = elim (Bool-cases (test x)) [
    | inl found ↦ rw found refl
    | inr fails ↦ rw fails (find_index_from-suc (suc i) xs)
  ]

  -- The index in the rest of the list.
  pub find_index-rest :
      (x : A) (xs : List A) (j : ℕ)
      → find_index test (x ∷ xs) ≡ some (suc j)
      → (test x ≡ false) × (find_index test xs ≡ some j)
  find_index-rest x xs j e = elim (Bool-cases (test x)) [
    | inl found ↦ cc (rw found at e)
    | inr fails ↦ (fails, ground (arith, find_index_from-suc 0 xs))
  ]

  pub find_index-first : (x : A) (xs : List A) → find_index test (x ∷ xs) ≡ some 0 → test x ≡ true
  find_index-first x xs e = elim (Bool-cases (test x)) [
    | inl found ↦ found
    | inr fails ↦ ground (arith, find_index_from-suc 0 xs)
  ]

  find_index-get :
      (xs : List A) (j : ℕ) → find_index test xs ≡ some j → (y : A) × (get_elem? xs j ≡ some y)
  find_index-get [] j e = cc
  find_index-get (x ∷ xs) zero e = (x, refl)
  find_index-get (x ∷ xs) (suc j) e = find_index-get xs j (find_index-rest x xs j e).1

  -- An element that passes the test has an index.
  pub find_index-found :
      (xs : List A) (z : A) → Mem z xs → test z ≡ true → (j : ℕ) × (find_index test xs ≡ some j)
  find_index-found [] z m h = absurd m
  find_index-found (x ∷ xs) z m h = elim (Bool-cases (test x)) [
    | inl passes ↦ (0, rw passes refl)
    | inr fails ↦ elim m [
      | inl e ↦ cc
      | inr k ↦
          let (j, found) = find_index-found xs z k h in
          (suc j, ground (arith, find_index_from-suc 0 xs))
    ]
  ]

  get_elem?-pred :
      (xs : List A) (i : ℕ) (y : A)
      → get_elem? xs (suc i) ≡ some y
      → (w : A) × (get_elem? xs i ≡ some w)
  get_elem?-pred [] i y e = cc
  get_elem?-pred (x ∷ xs) zero y e = (x, refl)
  get_elem?-pred (x ∷ xs) (suc i) y e = get_elem?-pred xs i y e

  -- The element before the one that is found is there.
  pub find_index-get_elem? :
      (xs : List A) (i : ℕ)
      → find_index test xs ≡ some (suc i)
      → (w : A) × (get_elem? xs i ≡ some w)
  find_index-get_elem? xs i e = let (y, g) = find_index-get xs (suc i) e in get_elem?-pred xs i y g

module _ {A B : Type 0} (f : A → B) where
  -- Elements with the same key are the same, where the keys differ.
  pub Nodup-same :
      (xs : List A) (a b : A) → Nodup (map f xs) → Mem a xs → Mem b xs → f a ≡ f b → a ≡ b
  Nodup-same [] a b n m k e = absurd m
  Nodup-same (x ∷ xs) a b (new, n) (inl p) (inl q) e = p ∙ sym q
  Nodup-same (x ∷ xs) a b (new, n) (inl p) (inr k) e =
      absurd (new (subst (λ y. Mem y (map f xs)) (sym e ∙ ap f p) (Mem-map f b xs k)))
  Nodup-same (x ∷ xs) a b (new, n) (inr m) (inl q) e =
      absurd (new (subst (λ y. Mem y (map f xs)) (e ∙ ap f q) (Mem-map f a xs m)))
  Nodup-same (x ∷ xs) a b (new, n) (inr m) (inr k) e = Nodup-same xs a b n m k e

module _ {A : Type 0} (test : A → Bool) (P : A → Type 0) (cmp : Comparator A)
    (order : IsOrder P cmp) where
  pub self : (x : A) → P x → is_gt (cmp x x) ≡ false
  self x p = elim (Bool-cases (is_gt (cmp x x))) [
    | inl after ↦ order.asymm x x p p after
    | inr before ↦ before
  ]

  -- `p` stands directly before `z`, the first element that passes the test.
  pub record IsDirectlyBefore (xs : List A) (p z : A) : Type 0 where
    pub there : Mem p xs
    pub found : Mem z xs
    pub passes : test z ≡ true
    pub fails : test p ≡ false
    pub in_order : is_gt (cmp p z) ≡ false
    pub none_between : (x : A) → Mem x xs → (is_gt (cmp x p) ≡ false) ⊎ (is_gt (cmp z x) ≡ false)

  pub directly_before :
      (xs : List A) (i : ℕ) (p : A)
      → All P xs
      → Sorted cmp xs
      → find_index test xs ≡ some (suc i)
      → get_elem? xs i ≡ some p
      → (z : A) × IsDirectlyBefore xs p z
  directly_before [] i p h s e g = cc
  directly_before (x ∷ []) i p h s e g = cc (find_index-rest test x [] i e).1
  directly_before (x ∷ y ∷ ys) zero p (px, (py, h)) ((xy, b), (c, s)) e g =
      let (fails, first) = find_index-rest test x (y ∷ ys) 0 e in
      let same : x ≡ p = cc in
      (
        y,
        subst (λ q. IsDirectlyBefore (x ∷ y ∷ ys) q y) same
            (record {
              there = inl refl;
              found = inr (inl refl);
              passes = find_index-first test y ys first;
              fails = fails;
              in_order = xy;
              none_between = λ w m. elim m [
                | inl is_x ↦ inl (subst (λ v. is_gt (cmp v x) ≡ false) (sym is_x) (self x px))
                | inr (inl is_y) ↦ inr (subst (λ v. is_gt (cmp y v) ≡ false) (sym is_y) (self y py))
                | inr (inr k) ↦ inr (All-Mem (λ v. is_gt (cmp y v) ≡ false) ys w c k)
              ];
            }),
      )
  directly_before (x ∷ y ∷ ys) (suc i) p (px, h) (b, s) e g =
      let (fails, later) = find_index-rest test x (y ∷ ys) (suc i) e in
      let (z, r) = directly_before (y ∷ ys) i p h s later g in
      (
        z,
        record {
          there = inr r.there;
          found = inr r.found;
          passes = r.passes;
          fails = r.fails;
          in_order = r.in_order;
          none_between = λ w m. elim m [
            | inl is_x ↦ inl (
                subst (λ v. is_gt (cmp v p) ≡ false) (sym is_x)
                  (All-Mem (λ v. is_gt (cmp x v) ≡ false) (y ∷ ys) p b r.there))
            | inr k ↦ r.none_between w k
          ];
        },
      )
