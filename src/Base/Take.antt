-- ===== src/Base/Take.antt =====
-- What holds of a list holds of its beginning.
use Prim.Native.Nat.{ℕ, zero, suc}
use mathlib.Core.Logic.{inl, inr}
use mathlib.Core.List.{List, [], ◌∷◌, map}
use jvm_scout.Base.Lists.{All, Mem, Nodup, take}
use jvm_scout.Base.Sort.{Comparator, Sorted}

module _ {A : Type 0} where
  pub Mem-take : (a : A) (n : ℕ) (xs : List A) → Mem a (take n xs) → Mem a xs
  Mem-take a zero xs m = absurd m
  Mem-take a (suc n) [] m = m
  Mem-take a (suc n) (x ∷ xs) (inl e) = inl e
  Mem-take a (suc n) (x ∷ xs) (inr m) = inr (Mem-take a n xs m)

  pub All-take : (P : A → Type 0) (n : ℕ) (xs : List A) → All P xs → All P (take n xs)
  All-take P zero xs h = tt
  All-take P (suc n) [] h = tt
  All-take P (suc n) (x ∷ xs) (p, h) = (p, All-take P n xs h)

  pub Sorted-take :
      (cmp : Comparator A) (n : ℕ) (xs : List A) → Sorted cmp xs → Sorted cmp (take n xs)
  Sorted-take cmp zero xs h = tt
  Sorted-take cmp (suc n) [] h = tt
  Sorted-take cmp (suc n) (x ∷ xs) (b, h) = (All-take _ n xs b, Sorted-take cmp n xs h)

module _ {A B : Type 0} (f : A → B) where
  Mem-map-take : (b : B) (n : ℕ) (xs : List A) → Mem b (map f (take n xs)) → Mem b (map f xs)
  Mem-map-take b zero xs m = absurd m
  Mem-map-take b (suc n) [] m = m
  Mem-map-take b (suc n) (x ∷ xs) (inl e) = inl e
  Mem-map-take b (suc n) (x ∷ xs) (inr m) = inr (Mem-map-take b n xs m)

  pub take-Nodup : (n : ℕ) (xs : List A) → Nodup (map f xs) → Nodup (map f (take n xs))
  take-Nodup zero xs h = tt
  take-Nodup (suc n) [] h = tt
  take-Nodup (suc n) (x ∷ xs) (new, h) = (λ m. new (Mem-map-take (f x) n xs m), take-Nodup n xs h)
