-- ===== src/Client/Cache/Paging.antt =====
-- The paging loop of `fetchAllExceptions` against a collector that serves a fixed list.
use jvm_scout.Base.{
  ℕ, zero, suc, ◌+◌, ◌*◌, ◌-◌, ◌≤◌, ◌<◌, ◌≡◌, ◌≢◌, ◌⊎◌, sym, ap, ◌∙◌, arith, ◌∷◌, [], ◌++◌, List,
  Option, none, some, Bool, true, false, inl, inr, length, take, drop, min, length-take,
  length-append, length-drop, take_of_length-le, Bool-cases, Text,
}
use jvm_scout.Client.Rows.{ExceptionListRow}
use jvm_scout.Client.Endpoints.{Page, exceptions}
use jvm_scout.Client.Http.{
  Platform, ClientState, Error, Result, out_of_fuel, type_error, response, parsed, http, Keeps,
  Keeps-refl, Keeps-trans, http-Keeps, http-ne-out_of_fuel, Result-cases, ◌>>=◌, ok, err, answer,
}
use jvm_scout.Client.Cache.{page_limit, is_last, pages}

module _ {World : Type 0} (p : Platform World) where
  -- One round of the loop, for each way in which the request ends.
  module _ (fuel most : ℕ) (out : List ExceptionListRow) (offset : ℕ) (s : ClientState World) where
    abbrev sent : Result (Option Page) × ClientState World
    sent = http p (exceptions page_limit offset) s

    module _ (page : Page) (arrived : sent.0 ≡ ok (some page)) where
      pages_last :
          is_last most (out ++ page.items) (offset + length page.items) page ≡ true
          → pages p (suc fuel) most out offset s ≡ (ok (out ++ page.items), sent.1)
      unfolding pages
      pages_last h = rw (arrived, ◌>>=◌) (rw h)

      pages_more :
          is_last most (out ++ page.items) (offset + length page.items) page ≡ false
          → pages p (suc fuel) most out offset s
            ≡ pages p fuel most (out ++ page.items) (offset + length page.items) sent.1
      unfolding pages
      pages_more h = rw (arrived, ◌>>=◌) (rw h)

    pages_empty : sent.0 ≡ ok none → pages p (suc fuel) most out offset s ≡ (err type_error, sent.1)
    unfolding pages
    pages_empty e = rw (e, ◌>>=◌)

    pages_failed :
        (x : Error) → sent.0 ≡ err x → pages p (suc fuel) most out offset s ≡ (err x, sent.1)
    unfolding pages
    pages_failed x e = rw (e, ◌>>=◌)

  -- However the collector answers, fuel above the cap is never used up.
  pub pages_fuel :
      (fuel most : ℕ) (out : List ExceptionListRow) (offset : ℕ) (s : ClientState World)
      → most < fuel + length out
      → length out ≤ most
      → (pages p fuel most out offset s).0 ≢ err out_of_fuel
  pages_fuel zero most out offset s h k = absurd (omega arith)
  pages_fuel (suc fuel) most out offset s h k =
      elim (Result-cases (http p (exceptions page_limit offset) s).0) [
        | inl (page, e) ↦
            let n = length-append out page.items in
            elim (Bool-cases (is_last most (out ++ page.items) (offset + length page.items) page)) [
              | inl l ↦ rw (pages_last fuel most out offset s page e l) (λ f. cc)
              | inr m ↦ rw (pages_more fuel most out offset s page e m) (
                  pages_fuel fuel most (out ++ page.items) (offset + length page.items) _
                    (ground (arith, n)) (ground (arith, n)))
            ]
        | inr (inl e) ↦ rw (pages_empty fuel most out offset s e) (λ f. cc)
        | inr (inr (x, e)) ↦
            rw (pages_failed fuel most out offset s x e)
              (λ f. http-ne-out_of_fuel p (exceptions page_limit offset) s (cc))
      ]

  -- The loop changes neither the caches nor the stored key, however it ends.
  pub pages-Keeps :
      (fuel most : ℕ) (out : List ExceptionListRow) (offset : ℕ) (s : ClientState World)
      → Keeps s (pages p fuel most out offset s).1
  unfolding pages
  pages-Keeps zero most out offset s = Keeps-refl s
  pages-Keeps (suc fuel) most out offset s =
      let kept = http-Keeps p (exceptions page_limit offset) s in
      elim (Result-cases (http p (exceptions page_limit offset) s).0) [
        | inl (page, e) ↦
            elim (Bool-cases (is_last most (out ++ page.items) (offset + length page.items) page)) [
              | inl l ↦ rw (pages_last fuel most out offset s page e l) kept
              | inr m ↦ rw (pages_more fuel most out offset s page e m) (
                  Keeps-trans kept
                    (pages-Keeps fuel most (out ++ page.items) (offset + length page.items) _))
            ]
        | inr (inl e) ↦ rw (pages_empty fuel most out offset s e) kept
        | inr (inr (x, e)) ↦ rw (pages_failed fuel most out offset s x e) kept
      ]

is_last-true :
    (most : ℕ) (out : List ExceptionListRow) (offset : ℕ) (page : Page)
    → is_last most out offset page ≡ true
    → (length page.items < page_limit) ⊎ ((most ≤ length out) ⊎ (page.total ≤ offset))
is_last-true most out offset page h = ground arith

is_last-false :
    (most : ℕ) (out : List ExceptionListRow) (offset : ℕ) (page : Page)
    → is_last most out offset page ≡ false
    → (page_limit ≤ length page.items) × (length out < most) × (offset < page.total)
is_last-false most out offset page h = ground arith

-- A collector that answers every page request from one list, as `ORDER BY id DESC LIMIT OFFSET` does.
abbrev pub IsServing : {World : Type 0} → Platform World → List ExceptionListRow → Type 0
IsServing {World = World} p xs =
    (limit offset : ℕ) (headers : List (Text × Text)) (w : World)
    → (p.fetch (exceptions limit offset) headers w).0
      ≡ response 200 (parsed (record { items = take limit (drop offset xs); total = length xs }))

take-same {ℓ} :
    {A : Type ℓ} (m n : ℕ) (xs : List A) → length xs ≤ m → length xs ≤ n → take m xs ≡ take n xs
take-same m n xs h k = take_of_length-le m xs h ∙ sym (take_of_length-le n xs k)

take-add {ℓ} :
    {A : Type ℓ} (m n : ℕ) (xs : List A) → take m xs ++ take n (drop m xs) ≡ take (m + n) xs
take-add zero n xs = ap (λ k. take k xs) (omega arith)
take-add (suc m) zero [] = take-same 0 (suc m + 0) [] (omega arith) (omega arith)
take-add (suc m) (suc n) [] = take-same (suc n) (suc m + suc n) [] (omega arith) (omega arith)
take-add (suc m) n (x ∷ xs) =
    let e : suc (m + n) ≡ suc m + n = omega arith in
    ap (◌∷◌ x) (take-add m n xs) ∙ ap (λ k. take k (x ∷ xs)) e

module _ {World : Type 0} (p : Platform World) (xs : List ExceptionListRow)
    (serving : IsServing p xs) where
  abbrev page_at : ℕ → Page
  page_at offset = record { items = take page_limit (drop offset xs); total = length xs }

  http-serving :
      (offset : ℕ) (s : ClientState World)
      → (http p (exceptions page_limit offset) s).0 ≡ ok (some (page_at offset))
  unfolding http answer
  http-serving offset s = rw (serving page_limit offset _ s.world) (ground arith)

  length-page_at :
      (offset : ℕ) → length (page_at offset).items ≡ min page_limit (length xs - offset)
  length-page_at offset =
      omega (arith, length-take page_limit (drop offset xs), length-drop offset xs)

  module _ (m offset : ℕ) (k : offset ≤ length xs) where
    abbrev most : ℕ
    most = offset + page_limit * suc m

    abbrev next : ℕ
    next = offset + length (page_at offset).items

    abbrev stops : Bool
    stops = is_last most (take offset xs ++ (page_at offset).items) next (page_at offset)

    stop_cases :
        stops ≡ true
        → (length xs ≤ offset + page_limit) ⊎ (offset + page_limit ≡ offset + page_limit * suc m)
    stop_cases l = omega (
      arith,
      is_last-true most (take offset xs ++ (page_at offset).items) next (page_at offset) l,
      length-page_at offset,
      length-take offset xs,
      length-append (take offset xs) (page_at offset).items,
    )

    last_page : stops ≡ true → take (offset + page_limit) xs ≡ take (offset + page_limit * suc m) xs
    last_page l = elim (stop_cases l) [
      | inl all_read ↦ take-same _ _ xs all_read (omega arith)
      | inr full ↦ ap (λ n. take n xs) full
    ]

    further :
        stops ≡ false
        → (offset + length (page_at offset).items ≡ offset + page_limit)
          × (offset + page_limit ≤ length xs)
          × (0 < m)
    further c = omega (
      arith,
      is_last-false most (take offset xs ++ (page_at offset).items) next (page_at offset) c,
      length-page_at offset,
      length-take offset xs,
      length-append (take offset xs) (page_at offset).items,
    )

  pages_serving :
      (m fuel offset : ℕ) (s : ClientState World)
      → m < fuel
      → offset ≤ length xs
      → (pages p fuel (offset + page_limit * suc m) (take offset xs) offset s).0
        ≡ ok (take (offset + page_limit * suc m) xs)
  pages_serving m zero offset s h k = elim h [ ]
  pages_serving zero (suc fuel) offset s h k = elim (Bool-cases (stops zero offset k)) [
    | inl l ↦
        rw
          (pages_last p fuel _ (take offset xs) offset s (page_at offset) (http-serving offset s) l)
          (ap ok (take-add offset page_limit xs ∙ last_page zero offset k l))
    | inr c ↦ absurd (omega (arith, further zero offset k c))
  ]
  pages_serving (suc m) (suc fuel) offset s h k = elim (Bool-cases (stops (suc m) offset k)) [
    | inl l ↦
        rw
          (pages_last p fuel _ (take offset xs) offset s (page_at offset) (http-serving offset s) l)
          (ap ok (take-add offset page_limit xs ∙ last_page (suc m) offset k l))
    | inr c ↦
        let (full, within, _) = further (suc m) offset k c in
        let regrouped : offset + page_limit * suc (suc m)
            ≡ offset + page_limit + page_limit * suc m =
          omega arith in
        rw
          (pages_more p fuel _ (take offset xs) offset s (page_at offset) (http-serving offset s) c)
          (rw (take-add offset page_limit xs, full, regrouped)
            (pages_serving m fuel (offset + page_limit) _ (omega arith) within))
  ]

  -- From the first page: the first `page_limit * suc m` rows of the list.
  pub pages_from_start :
      (m fuel : ℕ) (s : ClientState World)
      → m < fuel
      → (pages p fuel (page_limit * suc m) [] 0 s).0 ≡ ok (take (page_limit * suc m) xs)
  pages_from_start m fuel s h =
      let e : 0 + page_limit * suc m ≡ page_limit * suc m = omega arith in
      rw e at (pages_serving m fuel 0 s h (omega arith))
