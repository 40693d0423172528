-- ===== src/Pages/Applications/Cards.antt =====
-- The cards of frontend/src/routes/_authenticated/applications.tsx: which there are, and their windows.
use jvm_scout.Base.{
  ℕ, zero, suc, ◌+◌, ◌≡◌, ◌⊎◌, inl, inr, includes, refl, ap, ◌∙◌, sym, subst, ◌↔◌, arith, ◌∷◌, [],
  List, Option, true, Comparator, Text, text_dec, map, filter, length, sum_by, take, Mem, Mem-map,
  Mem-filter, Mem_of_map, Mem-sort_by, ◌==◌,
}
use jvm_scout.Client.Endpoints.{FingerprintSeries}
use jvm_scout.Client.Events.{EventRow}
use jvm_scout.Client.Applications.{Environment, ApplicationRow}
use jvm_scout.Client.Servers.{ServerRow}
use jvm_scout.Pages.Times.Same.{same_environment_lem}
use jvm_scout.Pages.Applications.{
  SortKey, EnvFilter, all_environments, only, Card, add_buckets, zeros, buckets_in, add_events,
  is_wanted, is_named_like, card_of, compare_cards, cards_of,
}

abbrev sum : List ℕ → ℕ
sum ns = sum_by (λ n. n) ns

length-add_buckets : (ns b : List ℕ) → length (add_buckets ns b) ≡ length ns
unfolding add_buckets
length-add_buckets [] b = refl
length-add_buckets (n ∷ ns) [] = refl
length-add_buckets (n ∷ ns) (m ∷ b) = ap suc (length-add_buckets ns b)

sum-add_buckets : (ns b : List ℕ) → sum (add_buckets ns b) ≡ sum ns + sum (take (length ns) b)
unfolding add_buckets
sum-add_buckets [] b = omega arith
sum-add_buckets (n ∷ ns) [] = omega arith
sum-add_buckets (n ∷ ns) (m ∷ b) = let rest = sum-add_buckets ns b in omega arith

length-zeros : (n : ℕ) → length (zeros n) ≡ n
length-zeros zero = refl
length-zeros (suc n) = ap suc (length-zeros n)

sum-zeros : (n : ℕ) → sum (zeros n) ≡ 0
sum-zeros zero = refl
sum-zeros (suc n) = let rest = sum-zeros n in omega arith

module _ (series : List (Text × FingerprintSeries)) where
  length-add_events :
      (ns : List ℕ) (es : List EventRow) → length (add_events series ns es) ≡ length ns
  unfolding add_events
  length-add_events ns [] = refl
  length-add_events ns (e ∷ es) =
      length-add_events (add_buckets ns (buckets_in series e)) es
      ∙ length-add_buckets ns (buckets_in series e)

  -- The hits of an event in the first buckets of its series.
  abbrev pub hits_in : ℕ → EventRow → ℕ
  hits_in n e = sum (take n (buckets_in series e))

  sum-add_events :
      (n : ℕ) (ns : List ℕ) (es : List EventRow)
      → length ns ≡ n
      → sum (add_events series ns es) ≡ sum ns + sum_by (hits_in n) es
  unfolding add_events
  sum-add_events n ns [] h = omega arith
  sum-add_events n ns (e ∷ es) h =
      let one = sum-add_buckets ns (buckets_in series e) in
      let rest =
        sum-add_events n (add_buckets ns (buckets_in series e)) es
          (length-add_buckets ns (buckets_in series e) ∙ h) in
      let same : sum (take (length ns) (buckets_in series e)) ≡ hits_in n e =
        ap (λ k. sum (take k (buckets_in series e))) h in
      omega arith

  -- The application is of the environment that is chosen, or else of the header's.
  abbrev pub IsOf : Environment → EnvFilter → ApplicationRow → Type 0
  IsOf environment all_environments app = app.environment ≡ environment
  IsOf environment (only e) app = app.environment ≡ e

  is_wanted-IsOf :
      (environment : Environment) (chosen : EnvFilter) (app : ApplicationRow)
      → (is_wanted environment chosen app ≡ true) ↔ IsOf environment chosen app
  is_wanted-IsOf environment all_environments app = same_environment_lem app.environment environment
  is_wanted-IsOf environment (only e) app = same_environment_lem app.environment e

  abbrev pub events_of_app : ApplicationRow → List EventRow → List EventRow
  events_of_app app events = filter (λ e. e.application_id == app.id) events

  module _ (lower : Text → Text) (locale : Comparator Text) (time_of : Text → Option ℕ)
      (events : List EventRow) (servers : List ServerRow) where
    -- The name contains the words, in any case; without words every name does.
    abbrev pub IsLike : Text → Text → Type 0
    IsLike wanted title = (wanted ≡ []) ⊎ (includes (lower wanted) (lower title) ≡ true)

    is_named_like-IsLike :
        (wanted title : Text)
        → (is_named_like lower locale time_of wanted title ≡ true) ↔ IsLike wanted title
    is_named_like-IsLike [] title = (λ h. inl refl, λ h. refl)
    is_named_like-IsLike (c ∷ wanted) title =
        (λ h. inr h, λ h. elim h [ inl e ↦ absurd (ground arith) | inr found ↦ found ])

    card_window :
        (app : ApplicationRow)
        → (length (card_of lower locale time_of events servers series app).series ≡ 24)
          × ((card_of lower locale time_of events servers series app).window_hits
              ≡ sum_by (hits_in 24) (events_of_app app events))
    unfolding card_of
    card_window app =
        let size = length-zeros 24 in
        let total = sum-add_events 24 (zeros 24) (events_of_app app events) size in
        let nothing = sum-zeros 24 in
        (length-add_events (zeros 24) (events_of_app app events) ∙ size, omega arith)

    abbrev pub IsCardOf : ApplicationRow → Card → Type 0
    IsCardOf app c =
        (c ≡ card_of lower locale time_of events servers series app)
        × ((length c.series ≡ 24)
            × (c.window_hits ≡ sum_by (hits_in 24) (events_of_app app events)))

    -- The page shows the card of each application of the chosen environment, or else of the header's,
    -- whose name contains the words in any case, and no others;
    -- its series has 24 buckets, and the hits of its window are those that the application's events have
    -- in the first 24 buckets of their series.
    pub Mem-cards_of :
        (environment : Environment) (chosen : EnvFilter) (wanted : Text) (key : SortKey)
        (applications : List ApplicationRow) (c : Card)
        → Mem c (
            cards_of lower locale time_of environment chosen wanted key applications events servers
              series)
          ↔ ((app : ApplicationRow) × (Mem app applications
                × (IsOf environment chosen app × (IsLike wanted app.name × IsCardOf app c))))
    unfolding cards_of
    Mem-cards_of environment chosen wanted key applications c =
        let card = card_of lower locale time_of events servers series in
        let named = λ (a : ApplicationRow). is_named_like lower locale time_of wanted a.name in
        let here = filter (is_wanted environment chosen) applications in
        (
          λ m.
              let (app, (k, e)) = Mem_of_map card c (filter named here) (
                (Mem-sort_by (compare_cards lower locale time_of key) c
                    (map card (filter named here))).0
                  m) in
              let (k2, name_fits) = (Mem-filter named app here).0 k in
              let (k3, fits) = (Mem-filter (is_wanted environment chosen) app applications).0 k2 in
              let (size, window) = card_window app in
              (
                app,
                (
                  k3,
                  (
                    (is_wanted-IsOf environment chosen app).0 fits,
                    (
                      (is_named_like-IsLike wanted app.name).0 name_fits,
                      (
                        sym e,
                        (
                          ap (λ d. length d.series) (sym e) ∙ size,
                          ap (λ d. d.window_hits) (sym e) ∙ window,
                        ),
                      ),
                    ),
                  ),
                ),
              ),
          λ (app, (k, (fits, (name_fits, (e, _))))).
              (Mem-sort_by (compare_cards lower locale time_of key) c
                  (map card (filter named here))).1
                (subst (λ d. Mem d (map card (filter named here))) (sym e)
                  (Mem-map card app (filter named here) (
                    (Mem-filter named app here).1 (
                      (Mem-filter (is_wanted environment chosen) app applications).1
                          (k, (is_wanted-IsOf environment chosen app).1 fits),
                      (is_named_like-IsLike wanted app.name).1 name_fits,
                    )))),
        )
