-- ===== src/Client/Cache/Laws.antt =====
-- What a caller of `fetchAllExceptions` gets, from the cache and from the collector.
use jvm_scout.Base.{
  ℕ, suc, ◌+◌, ◌<◌, ◌≡◌, refl, ◌≢◌, sym, ap, ◌∙◌, arith, [], List, Option, none, some, true, false,
  inl, inr, ◌⊎◌, take, ltb, dec_lt, Option-cases,
}
use jvm_scout.Client.Rows.{ExceptionListRow}
use jvm_scout.Client.Http.{
  Platform, Cached, ClientState, Error, Result, out_of_fuel, ok, err, Keeps, Keeps-refl,
  Keeps-trans, ◌>>=◌, >>=-ok,
}
use jvm_scout.Client.Cache.{
  ttl_ms, pages, serve, fresh_rows, refetch_exceptions, fetch_all_exceptions, default_cap,
  invalidate_cache,
}
use jvm_scout.Client.Cache.Paging.{pages_fuel, pages-Keeps, IsServing, pages_from_start}

ok-ne-err : {A : Type 0} {a : A} {e : Error} → ok a ≡ err e → ⊥
ok-ne-err h = cc

ok_injective : {A : Type 0} {a b : A} → ok a ≡ ok b → a ≡ b
ok_injective h = cc

some_injective : {a b : Cached (List ExceptionListRow)} → some a ≡ some b → a ≡ b
some_injective h = cc

abbrev Ends : {A : Type 0} → Result A → Type 0
Ends {A = A} r = ((rows : A) × (r ≡ ok rows)) ⊎ ((thrown : Error) × (r ≡ err thrown))

Ends-cases : {A : Type 0} (r : Result A) → Ends r
Ends-cases (ok a) = inl (a, refl)
Ends-cases (err e) = inr (e, refl)

module _ {World : Type 0} (p : Platform World) where
  abbrev paged : ℕ → ClientState World → Result (List ExceptionListRow) × ClientState World
  paged most s = pages p (suc most) most [] 0 s

  refetch_ok :
      (most : ℕ) (s : ClientState World) (rows : List ExceptionListRow)
      → (paged most s).0 ≡ ok rows
      → refetch_exceptions p most s ≡ (
        ok rows,
        record (paged most s).1 {
          exc_cache = some (record { at = (p.now (paged most s).1.world).0; rows = rows });
          world = (p.now (paged most s).1.world).1;
        },
      )
  unfolding refetch_exceptions
  refetch_ok most s rows e = rw (e, ◌>>=◌)

  refetch_err :
      (most : ℕ) (s : ClientState World) (x : Error)
      → (paged most s).0 ≡ err x
      → refetch_exceptions p most s ≡ (err x, (paged most s).1)
  unfolding refetch_exceptions
  refetch_err most s x e = rw (e, ◌>>=◌)

  -- The state after the clock has been read.
  abbrev pub ticked : ClientState World → ClientState World
  ticked s = record s { world = (p.now s.world).1 }

  abbrev pub IsFresh : Cached (List ExceptionListRow) → ClientState World → Type 0
  IsFresh c s = (p.now s.world).0 < c.at + ttl_ms

  module _ {A : Type 0} (o : Option (Cached A)) (s : ClientState World) where
    fresh_none : o ≡ none → fresh_rows p o s ≡ (ok none, s)
    unfolding fresh_rows
    fresh_none e = rw e

    module _ (c : Cached A) (cached : o ≡ some c) where
      fresh_hit :
          (p.now s.world).0 < c.at + ttl_ms → fresh_rows p o s ≡ (ok (some c.rows), ticked s)
      unfolding fresh_rows
      fresh_hit h =
          let now : ltb (p.now s.world).0 (c.at + ttl_ms) ≡ true = ground arith in
          rw cached (rw now)

      fresh_miss : (¬ ((p.now s.world).0 < c.at + ttl_ms)) → fresh_rows p o s ≡ (ok none, ticked s)
      unfolding fresh_rows
      fresh_miss h =
          let now : ltb (p.now s.world).0 (c.at + ttl_ms) ≡ false = ground arith in
          rw cached (rw now)

  module _ (most : ℕ) (s : ClientState World) where
    fetch_all_empty :
        s.exc_cache ≡ none → fetch_all_exceptions p most s ≡ refetch_exceptions p most s
    unfolding fetch_all_exceptions
    fetch_all_empty e =
        >>=-ok (fresh_rows p s.exc_cache) (serve (refetch_exceptions p most))
          (fresh_none s.exc_cache s e)

    module _ (c : Cached (List ExceptionListRow)) (cached : s.exc_cache ≡ some c) where
      -- While the cache is fresh a call returns its rows and sends nothing.
      pub fetch_all_fresh : IsFresh c s → fetch_all_exceptions p most s ≡ (ok c.rows, ticked s)
      unfolding fetch_all_exceptions
      fetch_all_fresh h =
          >>=-ok (fresh_rows p s.exc_cache) (serve (refetch_exceptions p most))
            (fresh_hit s.exc_cache s c cached h)

      fetch_all_stale :
          (¬ IsFresh c s) → fetch_all_exceptions p most s ≡ refetch_exceptions p most (ticked s)
      unfolding fetch_all_exceptions
      fetch_all_stale h =
          >>=-ok (fresh_rows p s.exc_cache) (serve (refetch_exceptions p most))
            (fresh_miss s.exc_cache s c cached h)

  module _ (most : ℕ) where
    refetch_fuel : (s : ClientState World) → (refetch_exceptions p most s).0 ≢ err out_of_fuel
    refetch_fuel s = elim (Ends-cases (paged most s).0) [
      | inl (rows, e) ↦ rw (refetch_ok most s rows e) (λ f. cc)
      | inr (x, e) ↦
          rw (refetch_err most s x e)
            (λ f. pages_fuel p (suc most) most [] 0 s (omega arith) (omega arith) (cc))
    ]

    -- A call ends as the paging does, after reading the clock or at once, or is served by the cache.
    fetch_all_cases :
        (s : ClientState World)
        → ((c : Cached (List ExceptionListRow)) × (s.exc_cache ≡ some c)
            × IsFresh c s
            × (fetch_all_exceptions p most s ≡ (ok c.rows, ticked s)))
          ⊎ ((t : ClientState World) × Keeps s t
              × (fetch_all_exceptions p most s ≡ refetch_exceptions p most t))
    fetch_all_cases s = elim (Option-cases s.exc_cache) [
      | inl e ↦ inr (s, Keeps-refl s, fetch_all_empty most s e)
      | inr (c, e) ↦ elim (dec_lt (p.now s.world).0 (c.at + ttl_ms)) [
        | yes h ↦ inl (c, e, h, fetch_all_fresh most s c e h)
        | no h ↦ inr (
          ticked s,
          record { exc_cache = refl; inst_cache = refl; storage = refl },
          fetch_all_stale most s c e h,
        )
      ]
    ]

    -- The paging ends within its fuel, whatever the collector answers.
    pub fetch_all_terminates :
        (s : ClientState World) → (fetch_all_exceptions p most s).0 ≢ err out_of_fuel
    fetch_all_terminates s = elim (fetch_all_cases s) [
      | inl (c, _, _, e) ↦ rw e (λ f. cc)
      | inr (t, _, e) ↦ rw e (refetch_fuel t)
    ]

    -- A call that fails leaves the caches and the stored key as they were.
    pub fetch_all_failure :
        (s : ClientState World) (x : Error)
        → (fetch_all_exceptions p most s).0 ≡ err x
        → Keeps s (fetch_all_exceptions p most s).1
    fetch_all_failure s x failed = elim (fetch_all_cases s) [
      | inl (c, _, _, e) ↦ absurd (ok-ne-err (sym (ap (λ r. r.0) e) ∙ failed))
      | inr (t, k, e) ↦ rw e (refetch_failure t k (ap (λ r. r.0) (sym e) ∙ failed))
    ]
      where
        refetch_failure :
            (t : ClientState World)
            → Keeps s t
            → (refetch_exceptions p most t).0 ≡ err x
            → Keeps s (refetch_exceptions p most t).1
        refetch_failure t k h = elim (Ends-cases (paged most t).0) [
          | inl (rows, e) ↦ absurd (ok-ne-err (sym (ap (λ r. r.0) (refetch_ok most t rows e)) ∙ h))
          | inr (y, e) ↦
              rw (refetch_err most t y e) (Keeps-trans k (pages-Keeps p (suc most) most [] 0 t))
        ]

    refetch_caches :
        (t : ClientState World) (rows : List ExceptionListRow)
        → (refetch_exceptions p most t).0 ≡ ok rows
        → (c : Cached (List ExceptionListRow)) × ((refetch_exceptions p most t).1.exc_cache
            ≡ some c)
          × (c.rows ≡ rows)
    refetch_caches t rows h = elim (Ends-cases (paged most t).0) [
      | inl (got, e) ↦
          let made = refetch_ok most t got e in
          (
            record { at = (p.now (paged most t).1.world).0; rows = got },
            rw made refl,
            ok_injective (sym (ap (λ r. r.0) made) ∙ h),
          )
      | inr (y, e) ↦ absurd (ok-ne-err (sym h ∙ ap (λ r. r.0) (refetch_err most t y e)))
    ]

    -- What a call returns is then cached.
    pub fetch_all_caches :
        (s : ClientState World) (rows : List ExceptionListRow)
        → (fetch_all_exceptions p most s).0 ≡ ok rows
        → (c : Cached (List ExceptionListRow)) × ((fetch_all_exceptions p most s).1.exc_cache
            ≡ some c)
          × (c.rows ≡ rows)
    fetch_all_caches s rows h = elim (fetch_all_cases s) [
      | inl (c, cached, _, e) ↦ (c, rw e cached, ok_injective (sym (ap (λ r. r.0) e) ∙ h))
      | inr (t, _, e) ↦
          let (c, cached, same) = refetch_caches t rows (ap (λ r. r.0) (sym e) ∙ h) in
          (c, rw e cached, same)
    ]

    -- After a call that returned rows, while the cache is younger than `ttl_ms`, the next call returns
    -- the same rows and sends no request.
    pub fetch_all_again :
        (s : ClientState World) (rows : List ExceptionListRow) (c : Cached (List ExceptionListRow))
        → (fetch_all_exceptions p most s).0 ≡ ok rows
        → (fetch_all_exceptions p most s).1.exc_cache ≡ some c
        → IsFresh c (fetch_all_exceptions p most s).1
        → fetch_all_exceptions p most (fetch_all_exceptions p most s).1
          ≡ (ok rows, ticked (fetch_all_exceptions p most s).1)
    fetch_all_again s rows c h cached fresh =
        let (d, filled, same) = fetch_all_caches s rows h in
        fetch_all_fresh most (fetch_all_exceptions p most s).1 c cached fresh
        ∙ ap (λ r. (ok r, ticked (fetch_all_exceptions p most s).1))
            (ap (λ e. e.rows) (some_injective (sym cached ∙ filled)) ∙ same)

    -- After `invalidateCache` the next call goes to the collector.
    pub fetch_all-invalidate_cache :
        (s : ClientState World)
        → fetch_all_exceptions p most (invalidate_cache s)
          ≡ refetch_exceptions p most (invalidate_cache s)
    unfolding invalidate_cache
    fetch_all-invalidate_cache s = fetch_all_empty most (invalidate_cache s) refl

  module _ (xs : List ExceptionListRow) (serving : IsServing p xs) where
    -- Without a cache, a collector that serves `xs` is read up to the cap of 2000 rows, in order.
    pub fetch_all_serving :
        (s : ClientState World)
        → s.exc_cache ≡ none
        → (fetch_all_exceptions p default_cap s).0 ≡ ok (take default_cap xs)
    fetch_all_serving s e =
        ap (λ r. r.0) (fetch_all_empty default_cap s e)
        ∙ ap (λ r. r.0)
            (refetch_ok default_cap s _
              (pages_from_start p xs serving 3 (suc default_cap) s (omega arith)))

    -- After `invalidateCache`, whatever the cache held, the next call returns the rows that the collector
    -- serves then, the first 2000 of them, and that call's rows are cached.
    pub fetch_all_current :
        (s : ClientState World)
        → ((fetch_all_exceptions p default_cap (invalidate_cache s)).0 ≡ ok (take default_cap xs))
          × ((c : Cached (List ExceptionListRow)) × ((fetch_all_exceptions p default_cap
                  (invalidate_cache s)).1.exc_cache
                ≡ some c)
              × (c.rows ≡ take default_cap xs))
    unfolding invalidate_cache
    fetch_all_current s =
        let served = fetch_all_serving (invalidate_cache s) refl in
        (served, fetch_all_caches default_cap (invalidate_cache s) (take default_cap xs) served)
