-- ===== src/Pages/Times/Index.antt =====
-- What the maps by id hold.
use jvm_scout.Base.{
  ◌≡◌, refl, sym, ap, inl, inr, ◌⊎◌, arith, ◌∷◌, [], List, Bool-cases, map, insert, keys,
  keys-insert, values, add-Nodup, All, Mem, Nodup, ◌==◌,
}
use jvm_scout.Pages.Times.{index_from}

module _ {A K : Type 0} ⦃d : Discrete K⦄ (key : A → K) where
  -- Each entry is under its own key.
  abbrev pub IsKeyed : List (K × A) → Type 0
  IsKeyed m = All (λ e. e.0 ≡ key e.1) m

  insert-IsKeyed : (x : A) (m : List (K × A)) → IsKeyed m → IsKeyed (insert (key x) x m)
  unfolding insert
  insert-IsKeyed x [] h = (refl, tt)
  insert-IsKeyed x ((k, y) ∷ m) (p, h) = elim (Bool-cases (k == key x)) [
    | inl e ↦ rw e (refl, h)
    | inr e ↦ rw e (p, insert-IsKeyed x m h)
  ]

  pub index_from-IsKeyed :
      (m : List (K × A)) (xs : List A) → IsKeyed m → IsKeyed (index_from key m xs)
  unfolding index_from
  index_from-IsKeyed m [] h = h
  index_from-IsKeyed m (x ∷ xs) h =
      index_from-IsKeyed (insert (key x) x m) xs (insert-IsKeyed x m h)

  pub index_from-Nodup :
      (m : List (K × A)) (xs : List A) → Nodup (keys m) → Nodup (keys (index_from key m xs))
  unfolding index_from
  index_from-Nodup m [] n = n
  index_from-Nodup m (x ∷ xs) n =
      index_from-Nodup (insert (key x) x m) xs
        (rw (keys-insert (key x) x m) (add-Nodup (key x) (keys m) n))

  map-values : (m : List (K × A)) → IsKeyed m → map key (values m) ≡ keys m
  map-values [] h = refl
  map-values ((k, x) ∷ m) (p, h) = rw (sym p) (ap (◌∷◌ k) (map-values m h))

  -- The values have different keys.
  pub values-Nodup : (m : List (K × A)) → IsKeyed m → Nodup (keys m) → Nodup (map key (values m))
  values-Nodup m h n = rw (map-values m h) n

  Mem-values-insert :
      (y x : A) (m : List (K × A))
      → Mem y (values (insert (key x) x m))
      → Mem y (values m) ⊎ (y ≡ x)
  unfolding insert
  Mem-values-insert y x [] (inl e) = inr e
  Mem-values-insert y x [] (inr m) = absurd m
  Mem-values-insert y x ((k, z) ∷ rest) m = grind (arith, Mem-values-insert y x rest)

  -- A value was there before, or comes from the list.
  pub Mem-values-index_from :
      (y : A) (m : List (K × A)) (xs : List A)
      → Mem y (values (index_from key m xs))
      → Mem y (values m) ⊎ Mem y xs
  unfolding index_from
  Mem-values-index_from y m [] h = inl h
  Mem-values-index_from y m (x ∷ xs) h = elim (Mem-values-index_from y (insert (key x) x m) xs h) [
    | inl old ↦ elim (Mem-values-insert y x m old) [ inl there ↦ inl there | inr e ↦ inr (inl e) ]
    | inr later ↦ inr (inr later)
  ]
