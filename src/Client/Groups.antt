-- ===== src/Client/Groups.antt =====
-- The loop of `deriveEvents` in frontend/src/integrations/collector/client.ts that groups rows by a
-- key into a `Map` of lists, and what it computes.
use jvm_scout.Base.{
  ℕ, ◌+◌, sum_by, subst, All, ◌++◌, ◌∷◌, [], List, none, some, true, false, inl, inr, ◌≡◌, refl, ap,
  ◌∙◌, arith, map, filter, lookup, insert, add, add_all, set_of, has, set_of-Nodup, set_of-snoc,
  append-nil, append_assoc, Nodup, Mem, not_has_of_Mem, has-set_of, fun_ext, if◌then◌else◌, ◌==◌,
  Bool-cases, map-append,
}

module _ {A K : Type 0} ⦃d : Discrete K⦄ (key : A → K) where
  -- One round: `const g = groups.get(key); if (g) g.push(r); else groups.set(key, [r]);`
  unfoldable pub push_group : A → List (K × List A) → List (K × List A)
  push_group r groups = elim (lookup (key r) groups) [
    | some g ↦ insert (key r) (g ++ r ∷ []) groups
    | none ↦ insert (key r) (r ∷ []) groups
  ]

  unfoldable pub group_from : List (K × List A) → List A → List (K × List A)
  unfolding push_group
  group_from groups [] = groups
  group_from groups (r ∷ rs) = group_from (push_group r groups) rs

  -- The rows with the key `k`, in their order.
  abbrev pub with_key : K → List A → List A
  with_key k xs = filter (λ r. key r == k) xs

  -- The groups, described without the loop: for each key, in order of first appearance, its rows.
  abbrev pub grouped : List A → List (K × List A)
  grouped xs = map (λ k. (k, with_key k xs)) (set_of (map key xs))

module _ {K V : Type 0} ⦃d : Discrete K⦄ where
  -- A map made from a set of keys and a function of them.
  abbrev from_keys : (K → V) → List K → List (K × V)
  from_keys f ks = map (λ k. (k, f k)) ks

  abbrev updated : K → V → (K → V) → K → V
  updated k v f j = if k == j then v else f j

  pub lookup-from_keys :
      (f : K → V) (k : K) (ks : List K)
      → lookup k (from_keys f ks) ≡ (if has k ks then some (f k) else none)
  unfolding lookup has
  lookup-from_keys f k [] = refl
  lookup-from_keys f k (j ∷ ks) = ground (arith, lookup-from_keys f k ks)

  from_keys_other :
      (f : K → V) (k : K) (v : V) (ks : List K)
      → has k ks ≡ false
      → from_keys (updated k v f) ks ≡ from_keys f ks
  unfolding has
  from_keys_other f k v [] h = refl
  from_keys_other f k v (j ∷ ks) h = ground (arith, from_keys_other f k v ks)

  insert-from_keys :
      (f : K → V) (k : K) (v : V) (ks : List K)
      → Nodup ks
      → insert k v (from_keys f ks) ≡ from_keys (updated k v f) (add k ks)
  unfolding insert has add
  insert-from_keys f k v [] n = ground arith
  insert-from_keys f k v (j ∷ ks) (new, n) = elim (Bool-cases (j == k)) [
    | inl e ↦ ground (arith, from_keys_other f k v ks, not_has_of_Mem k ks)
    | inr e ↦ ground (arith, insert-from_keys f k v ks n)
  ]

  from_keys_congr :
      (f g : K → V) (ks : List K) → ((k : K) → f k ≡ g k) → from_keys f ks ≡ from_keys g ks
  from_keys_congr f g ks h = rw (fun_ext h)

module _ {A K : Type 0} ⦃d : Discrete K⦄ (key : A → K) where
  with_key_of_new : (k : K) (xs : List A) → has k (map key xs) ≡ false → with_key key k xs ≡ []
  unfolding has
  with_key_of_new k [] h = refl
  with_key_of_new k (x ∷ xs) h = ground (arith, with_key_of_new k xs)

  with_key-snoc :
      (k : K) (xs : List A) (r : A)
      → with_key key k (xs ++ r ∷ [])
        ≡ (if key r == k then with_key key k xs ++ r ∷ [] else with_key key k xs)
  with_key-snoc k [] r = ground arith
  with_key-snoc k (x ∷ xs) r = ground (arith, with_key-snoc k xs r)

  module _ (xs : List A) (r : A) where
    push_group_old :
        has (key r) (map key xs) ≡ true
        → push_group key r (grouped key xs) ≡ grouped key (xs ++ r ∷ [])
    unfolding push_group
    push_group_old old =
        let k = key r in
        let ks = set_of (map key xs) in
        let f = λ (j : K). with_key key j xs in
        let found : lookup k (from_keys f ks) ≡ some (f k) =
          ground (arith, lookup-from_keys f k ks, has-set_of k (map key xs)) in
        rw (found, push_group)
          (insert-from_keys f k (f k ++ r ∷ []) ks (set_of-Nodup (map key xs))
            ∙ (rw (map-append key xs (r ∷ []), set_of-snoc (map key xs) k)
                (from_keys_congr _ _ (add k ks) (λ j. ground (arith, with_key-snoc j xs r)))))

    push_group_new :
        has (key r) (map key xs) ≡ false
        → push_group key r (grouped key xs) ≡ grouped key (xs ++ r ∷ [])
    unfolding push_group
    push_group_new new =
        let k = key r in
        let ks = set_of (map key xs) in
        let f = λ (j : K). with_key key j xs in
        let found : lookup k (from_keys f ks) ≡ none =
          ground (arith, lookup-from_keys f k ks, has-set_of k (map key xs)) in
        rw (found, push_group)
          (insert-from_keys f k (r ∷ []) ks (set_of-Nodup (map key xs))
            ∙ (rw (map-append key xs (r ∷ []), set_of-snoc (map key xs) k)
                (from_keys_congr _ _ (add k ks)
                  (λ j. ground (arith, with_key-snoc j xs r, with_key_of_new k xs new)))))

    push_group-grouped : push_group key r (grouped key xs) ≡ grouped key (xs ++ r ∷ [])
    push_group-grouped = elim (Bool-cases (has (key r) (map key xs))) [
      | inl old ↦ push_group_old old
      | inr new ↦ push_group_new new
    ]

  group_from-grouped :
      (xs rs : List A) → group_from key (grouped key xs) rs ≡ grouped key (xs ++ rs)
  unfolding group_from
  group_from-grouped xs [] = rw append-nil
  group_from-grouped xs (r ∷ rs) =
      rw (push_group-grouped xs r)
        (group_from-grouped (xs ++ r ∷ []) rs ∙ ap (grouped key) (append_assoc xs (r ∷ []) rs))

  -- The loop computes the groups that the description names.
  pub group_from_lem : (rows : List A) → group_from key [] rows ≡ grouped key rows
  unfolding set_of add_all
  group_from_lem rows = group_from-grouped [] rows

module _ {A K : Type 0} ⦃d : Discrete K⦄ (key : A → K) (w : A → ℕ) where
  abbrev weight_at : K → A → ℕ
  weight_at k x = if key x == k then w x else 0

  sum_by-with_key-cons :
      (x : A) (xs : List A) (ks : List K)
      → sum_by (λ k. sum_by w (with_key key k (x ∷ xs))) ks
        ≡ sum_by (λ k. weight_at k x) ks + sum_by (λ k. sum_by w (with_key key k xs)) ks
  sum_by-with_key-cons x xs [] = omega arith
  sum_by-with_key-cons x xs (k ∷ ks) = ground (arith, sum_by-with_key-cons x xs ks)

  sum_by-weight_other :
      (x : A) (ks : List K) → has (key x) ks ≡ false → sum_by (λ k. weight_at k x) ks ≡ 0
  unfolding has
  sum_by-weight_other x [] h = refl
  sum_by-weight_other x (k ∷ ks) h = ground (arith, sum_by-weight_other x ks)

  sum_by-weight_at :
      (x : A) (ks : List K)
      → Nodup ks
      → has (key x) ks ≡ true
      → sum_by (λ k. weight_at k x) ks ≡ w x
  unfolding has
  sum_by-weight_at x [] n h = cc
  sum_by-weight_at x (k ∷ ks) (new, n) h = elim (Bool-cases (k == key x)) [
    | inl e ↦ ground (
      arith,
      sum_by-weight_other x ks,
      not_has_of_Mem (key x) ks (λ m. new (subst (λ j. Mem j ks) (ground arith) m)),
    )
    | inr e ↦ ground (arith, sum_by-weight_at x ks n)
  ]

  -- The weights of the groups add up to the weight of all rows.
  pub sum_by-groups :
      (xs : List A) (ks : List K)
      → Nodup ks
      → All (λ x. has (key x) ks ≡ true) xs
      → sum_by (λ k. sum_by w (with_key key k xs)) ks ≡ sum_by w xs
  sum_by-groups [] ks n h = no_rows ks
    where
      no_rows : (ks : List K) → sum_by (λ (k : K). 0) ks ≡ 0
      no_rows [] = refl
      no_rows (k ∷ ks) = omega (arith, no_rows ks)
  sum_by-groups (x ∷ xs) ks n (p, h) =
      omega
        (arith, sum_by-with_key-cons x xs ks, sum_by-weight_at x ks n p, sum_by-groups xs ks n h)
