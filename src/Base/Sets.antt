-- ===== src/Base/Sets.antt =====
-- JavaScript's `Set` and `Map`, as lists in insertion order.
use mathlib.Core.Path.{◌≡◌, refl, sym, ◌∙◌}
use mathlib.Core.Logic.{inl, inr, ◌↔◌}
use mathlib.Core.Bool.{Bool, true, false, ◌||◌, not}
use mathlib.Core.Option.{Option, none, some}
use mathlib.Core.List.{List, [], ◌∷◌, ◌++◌, map}
use native.Mathlib.Omega.{arith}
use jvm_scout.Base.Tests.{if◌then◌else◌, ◌==◌, Bool-cases}
use jvm_scout.Base.Lists.{Mem, Nodup, Mem-append_cases, filter}

module _ {A : Type 0} ⦃d : Discrete A⦄ where
  -- `s.has(a)`
  unfoldable pub has : A → List A → Bool
  has a [] = false
  has a (x ∷ xs) = x == a || has a xs

  -- `s.add(a)`
  unfoldable pub add : A → List A → List A
  add a s = if has a s then s else s ++ a ∷ []

  -- `s.delete(a)`
  unfoldable pub delete : A → List A → List A
  delete a s = filter (λ x. not (x == a)) s

  unfoldable pub add_all : List A → List A → List A
  add_all s [] = s
  add_all s (x ∷ xs) = add_all (add x s) xs

  -- `new Set(xs)`
  unfoldable pub set_of : List A → List A
  set_of xs = add_all [] xs

  pub Mem_of_has : (a : A) (xs : List A) → has a xs ≡ true → Mem a xs
  unfolding has
  Mem_of_has a [] h = cc
  Mem_of_has a (x ∷ xs) h = ground (arith, Mem_of_has a xs)

  pub has_of_Mem : (a : A) (xs : List A) → Mem a xs → has a xs ≡ true
  unfolding has
  has_of_Mem a [] m = absurd m
  has_of_Mem a (x ∷ xs) (inl e) = ground arith
  has_of_Mem a (x ∷ xs) (inr m) = ground (arith, has_of_Mem a xs m)

  pub not_Mem_of_has : (a : A) (xs : List A) → has a xs ≡ false → ¬ Mem a xs
  not_Mem_of_has a xs h m = cc (has_of_Mem a xs m)

  pub not_has_of_Mem : (a : A) (xs : List A) → (¬ Mem a xs) → has a xs ≡ false
  not_has_of_Mem a xs h = elim (Bool-cases (has a xs)) [
    | inl e ↦ absurd (h (Mem_of_has a xs e))
    | inr e ↦ e
  ]

  pub has-append : (a : A) (xs ys : List A) → has a (xs ++ ys) ≡ (has a xs || has a ys)
  unfolding has
  has-append a [] ys = refl
  has-append a (x ∷ xs) ys = ground (arith, has-append a xs ys)

  pub has-add : (a b : A) (s : List A) → has a (add b s) ≡ (has a s || (b == a))
  unfolding add has
  has-add a b s = ground (arith, has-append a s (b ∷ []))

  pub has-delete : (a b : A) (s : List A) → has a (delete b s) ≡ (if b == a then false else has a s)
  unfolding has delete
  has-delete a b [] = ground arith
  has-delete a b (x ∷ s) = ground (arith, has-delete a b s)

  Nodup-snoc : (a : A) (s : List A) → Nodup s → ¬ Mem a s → Nodup (s ++ a ∷ [])
  Nodup-snoc a [] n h = ((λ m. m), tt)
  Nodup-snoc a (x ∷ s) (new, n) h = (
    (λ m. elim (Mem-append_cases x s (a ∷ []) m) [
      | inl old ↦ new old
      | inr (inl e) ↦ h (inl (sym e))
      | inr (inr other) ↦ absurd other
    ]),
    Nodup-snoc a s n (λ m. h (inr m)),
  )

  pub add-Nodup : (a : A) (s : List A) → Nodup s → Nodup (add a s)
  unfolding add
  add-Nodup a s n = elim (Bool-cases (has a s)) [
    | inl old ↦ rw old n
    | inr new ↦ rw new (Nodup-snoc a s n (not_Mem_of_has a s new))
  ]

  add_all-Nodup : (s xs : List A) → Nodup s → Nodup (add_all s xs)
  unfolding add_all
  add_all-Nodup s [] n = n
  add_all-Nodup s (x ∷ xs) n = add_all-Nodup (add x s) xs (add-Nodup x s n)

  has-add_all : (a : A) (s xs : List A) → has a (add_all s xs) ≡ (has a s || has a xs)
  unfolding add_all has
  has-add_all a s [] = ground arith
  has-add_all a s (x ∷ xs) = ground (arith, has-add_all a (add x s) xs, has-add a x s)

  add_all-snoc : (s xs : List A) (x : A) → add_all s (xs ++ x ∷ []) ≡ add x (add_all s xs)
  unfolding add_all
  add_all-snoc s [] x = refl
  add_all-snoc s (y ∷ xs) x = add_all-snoc (add y s) xs x

  pub set_of-snoc : (xs : List A) (x : A) → set_of (xs ++ x ∷ []) ≡ add x (set_of xs)
  unfolding set_of
  set_of-snoc xs x = add_all-snoc [] xs x

  -- A set holds each of its values once.
  pub set_of-Nodup : (xs : List A) → Nodup (set_of xs)
  unfolding set_of
  set_of-Nodup xs = add_all-Nodup [] xs tt

  pub has-set_of : (a : A) (xs : List A) → has a (set_of xs) ≡ has a xs
  unfolding set_of has
  has-set_of a xs = has-add_all a [] xs

  pub Mem-set_of : (a : A) (xs : List A) → Mem a (set_of xs) ↔ Mem a xs
  Mem-set_of a xs = (
    λ m. Mem_of_has a xs (sym (has-set_of a xs) ∙ has_of_Mem a (set_of xs) m),
    λ m. Mem_of_has a (set_of xs) (has-set_of a xs ∙ has_of_Mem a xs m),
  )

-- `Map<K, V>`, and an object used as a dictionary.
module _ {K V : Type 0} where
  abbrev pub keys : List (K × V) → List K
  keys = map (λ e. e.0)

  abbrev pub values : List (K × V) → List V
  values = map (λ e. e.1)

module _ {K V : Type 0} ⦃d : Discrete K⦄ where
  -- `m.get(k)`
  unfoldable pub lookup : K → List (K × V) → Option V
  lookup k [] = none
  lookup k ((j, v) ∷ m) = if j == k then some v else lookup k m

  -- `m.set(k, v)`
  unfoldable pub insert : K → V → List (K × V) → List (K × V)
  insert key value [] = (key, value) ∷ []
  insert key value ((other, old) ∷ entries) =
      if other == key then (key, value) ∷ entries else (other, old) ∷ insert key value entries

  pub lookup-insert :
      (asked set : K) (value : V) (entries : List (K × V))
      → lookup asked (insert set value entries)
        ≡ (if set == asked then some value else lookup asked entries)
  unfolding lookup insert
  lookup-insert asked set value (e ∷ entries) =
      ground (arith, lookup-insert asked set value entries)
  lookup-insert asked set value [] = refl

  pub keys-insert : (k : K) (v : V) (m : List (K × V)) → keys (insert k v m) ≡ add k (keys m)
  unfolding insert add has
  keys-insert k v [] = refl
  keys-insert k v ((i, w) ∷ m) = ground (arith, keys-insert k v m)

  pub lookup-eq-none : (k : K) (m : List (K × V)) → has k (keys m) ≡ false → lookup k m ≡ none
  unfolding lookup has
  lookup-eq-none k [] h = refl
  lookup-eq-none k ((i, w) ∷ m) h = ground (arith, lookup-eq-none k m)

  pub lookup-of_has :
      (k : K) (m : List (K × V)) → has k (keys m) ≡ true → (v : V) × (lookup k m ≡ some v)
  unfolding lookup has
  lookup-of_has k [] h = cc
  lookup-of_has k ((i, w) ∷ m) h = elim (Bool-cases (i == k)) [
    | inl e ↦ (w, rw e refl)
    | inr e ↦ (let (v, found) = lookup-of_has k m (ground arith) in (v, rw e found))
  ]
