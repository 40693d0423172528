-- ===== src/Base/Finds.antt =====
-- What `find` finds, and elements that are known by a key.
use mathlib.Core.Path.{◌≡◌, refl, ap, sym, subst, ◌∙◌}
use mathlib.Core.Logic.{inl, inr}
use mathlib.Core.Bool.{Bool, true, false}
use mathlib.Core.Option.{Option, none, some}
use mathlib.Core.List.{List, [], ◌∷◌, ◌++◌, map}
use native.Mathlib.Omega.{arith}
use jvm_scout.Base.Tests.{if◌then◌else◌, Bool-cases}
use jvm_scout.Base.Lists.{find, Mem, Mem-map, Nodup}

module _ {A B : Type 0} (key : A → B) where
  -- Elements of a list whose keys are distinct are the same, if their keys are.
  pub Mem_of_key :
      (xs : List A) (a b : A) → Nodup (map key xs) → Mem a xs → Mem b xs → key a ≡ key b → a ≡ b
  Mem_of_key [] a b n m k e = absurd m
  Mem_of_key (x ∷ xs) a b (new, n) (inl p) (inl q) e = p ∙ sym q
  Mem_of_key (x ∷ xs) a b (new, n) (inl p) (inr k) e =
      absurd (new (subst (λ t. Mem t (map key xs)) (sym e ∙ ap key p) (Mem-map key b xs k)))
  Mem_of_key (x ∷ xs) a b (new, n) (inr m) (inl q) e =
      absurd (new (subst (λ t. Mem t (map key xs)) (e ∙ ap key q) (Mem-map key a xs m)))
  Mem_of_key (x ∷ xs) a b (new, n) (inr m) (inr k) e = Mem_of_key xs a b n m k e

module _ {A : Type 0} (p : A → Bool) where
  find_here : (x : A) (xs : List A) → p x ≡ true → find p (x ∷ xs) ≡ some x
  find_here x xs h = rw h refl

  find_later : (x : A) (xs : List A) → p x ≡ false → find p (x ∷ xs) ≡ find p xs
  find_later x xs h = rw h refl

  value_or : A → Option A → A
  value_or d none = d
  value_or d (some a) = a

  pub find-some : (xs : List A) (a : A) → find p xs ≡ some a → Mem a xs × (p a ≡ true)
  unfolding value_or
  find-some [] a h = absurd (cc)
  find-some (x ∷ xs) a h = elim (Bool-cases (p x)) [
    | inl e ↦
        let same : a ≡ x = ap (value_or a) (sym h ∙ find_here x xs e) in (inl same, ap p same ∙ e)
    | inr e ↦ let (m, k) = find-some xs a (sym (find_later x xs e) ∙ h) in (inr m, k)
  ]

  -- The element at the end is found only if no other is.
  pub find-append :
      (xs : List A) (x : A)
      → find p (xs ++ x ∷ [])
        ≡ elim (find p xs) [ some a ↦ some a | none ↦ if p x then some x else none ]
  find-append [] x = refl
  find-append (y ∷ xs) x = ground (arith, find-append xs x)

  -- A change of the elements that the test does not see.
  pub find-map :
      (f : A → A) (xs : List A)
      → ((a : A) → p (f a) ≡ p a)
      → find p (map f xs) ≡ elim (find p xs) [ some a ↦ some (f a) | none ↦ none ]
  find-map f [] h = refl
  find-map f (x ∷ xs) h = let rest = find-map f xs h in let same = h x in ground arith
