-- ===== src/Server/Laws.antt =====
-- What a client of the server gets, and what is logged.
use jvm_scout.Base.{
  ℕ_discrete, ◌≡◌, subst, refl, inl, inr, none, true, ◌∷◌, [], ◌++◌, List, some, false, ℕ, All,
  Bool-cases, Option-cases, includes, starts_with,
}
use jvm_scout.Server.{
  Attempt, settled, threw, caught, Response, error_response, is_swallowed, Logged, ServerState,
  Handler, get_server_entry, normalize, conclude, handle, fetch,
}

error_response_passes : is_swallowed error_response ≡ false
unfolding is_swallowed includes starts_with ℕ_discrete
error_response_passes = refl

module _ {World Request E : Type 0} (load : World → Attempt (Handler World Request E) E × World)
    (now : World → ℕ × World) where
  -- Where the server entry comes from: the import that was kept, or one made now.
  pub data IsEntry (s : ServerState World Request E) (entry : Attempt (Handler World Request E) E)
      (w : World) : Type 0 where
    kept : s.entry ≡ some entry → w ≡ s.world → IsEntry s entry w
    imported : s.entry ≡ none → entry ≡ (load s.world).0 → w ≡ (load s.world).1 → IsEntry s entry w

  -- What a request gets from an entry, in a world, with what was logged before.
  pub data IsAnswer (entry : Attempt (Handler World Request E) E) (request : Request) (w : World)
      (before : List (Logged E)) (r : Response) (t : ServerState World Request E) : Type 0 where
    passed :
        (h : Handler World Request E)
        → entry ≡ settled h
        → (h request w).0 ≡ settled r
        → is_swallowed r ≡ false
        → t.console ≡ before
        → IsAnswer entry request w before r t
    masked :
        (h : Handler World Request E) (raw : Response) (l : Logged E)
        → entry ≡ settled h
        → (h request w).0 ≡ settled raw
        → is_swallowed raw ≡ true
        → r ≡ error_response
        → t.console ≡ before ++ l ∷ []
        → IsAnswer entry request w before r t
    crashed :
        (h : Handler World Request E) (e : E)
        → entry ≡ settled h
        → (h request w).0 ≡ threw e
        → r ≡ error_response
        → t.console ≡ before ++ caught e ∷ []
        → IsAnswer entry request w before r t
    missing :
        (e : E)
        → entry ≡ threw e
        → r ≡ error_response
        → t.console ≡ before ++ caught e ∷ []
        → IsAnswer entry request w before r t

  module _ (request : Request) (h : Handler World Request E) (w : World) where
    normalize-IsAnswer :
        (r : Response) (s : ServerState World Request E)
        → (h request w).0 ≡ settled r
        → IsAnswer
            (settled h)
            request
            w
            s.console
            (normalize load now r s).0
            (normalize load now r s).1
    unfolding normalize
    normalize-IsAnswer r s given = elim (Bool-cases (is_swallowed r)) [
      | inl e ↦ rw e (masked h r _ refl given e refl refl)
      | inr e ↦ rw e (passed h refl given e refl)
    ]

    conclude-IsAnswer :
        (a : Attempt Response E × World) (s : ServerState World Request E)
        → (h request w).0 ≡ a.0
        → IsAnswer
            (settled h)
            request
            w
            s.console
            (conclude load now a s).0
            (conclude load now a s).1
    conclude-IsAnswer (settled r, v) s given = normalize-IsAnswer r (record s { world = v }) given
    conclude-IsAnswer (threw e, v) s given = crashed h e refl given refl refl

  handle-IsAnswer :
      (request : Request) (a : Attempt (Handler World Request E) E)
      (s : ServerState World Request E)
      → IsAnswer a request s.world s.console
          (handle load now request (a, s)).0
          (handle load now request (a, s)).1
  handle-IsAnswer request (settled h) s =
      conclude-IsAnswer request h s.world (h request s.world) s refl
  handle-IsAnswer request (threw e) s = missing e refl refl refl

  get_server_entry_kept :
      (s : ServerState World Request E) (entry : Attempt (Handler World Request E) E)
      → s.entry ≡ some entry
      → (entry, s) ≡ get_server_entry load now s
  unfolding get_server_entry
  get_server_entry_kept s entry e = rw e refl

  -- Every request is answered, whatever the import and the handler do. The import is the one that was
  -- kept, or is made now; if it yields a handler and that responds, with no swallowed error, the answer
  -- is this response and nothing is logged. Otherwise the answer is the error page, with one error
  -- logged, the one that the import or the handler threw if either did.
  pub fetch-IsAnswer :
      (request : Request) (s : ServerState World Request E)
      → (entry : Attempt (Handler World Request E) E) × (w : World) × IsEntry s entry w
        × IsAnswer entry request w s.console
            (fetch load now request s).0
            (fetch load now request s).1
  unfolding fetch get_server_entry
  fetch-IsAnswer request s = elim (Option-cases s.entry) [
    | inl e ↦ (
      (load s.world).0,
      (load s.world).1,
      imported e refl refl,
      rw e (
          handle-IsAnswer request (load s.world).0
            (record s { entry = some (load s.world).0; world = (load s.world).1 })),
    )
    | inr (entry, e) ↦ (
      entry,
      s.world,
      kept e refl,
      subst
          (λ x.
            IsAnswer entry request s.world s.console (handle load now request x).0
              (handle load now request x).1)
          (get_server_entry_kept s entry e) (handle-IsAnswer request entry s),
    )
  ]

  -- The responses to requests, one after another.
  unfoldable pub fetch_all : List Request → ServerState World Request E → List Response
  fetch_all [] s = []
  fetch_all (q ∷ qs) s = (fetch load now q s).0 ∷ fetch_all qs (fetch load now q s).1

  fetch_of_failed :
      (request : Request) (s : ServerState World Request E) (e : E)
      → s.entry ≡ some (threw e)
      → ((fetch load now request s).0 ≡ error_response)
        × ((fetch load now request s).1.entry ≡ some (threw e))
  unfolding fetch get_server_entry
  fetch_of_failed request s e h = rw h (refl, refl)

  fetch_all_of_kept :
      (requests : List Request) (s : ServerState World Request E) (e : E)
      → s.entry ≡ some (threw e)
      → All (λ r. r ≡ error_response) (fetch_all requests s)
  unfolding fetch_all
  fetch_all_of_kept [] s e h = tt
  fetch_all_of_kept (q ∷ qs) s e h =
      let (answer, kept_too) = fetch_of_failed q s e h in
      (answer, fetch_all_of_kept qs (fetch load now q s).1 e kept_too)

  fetch-import_failed :
      (request : Request) (s : ServerState World Request E) (e : E)
      → s.entry ≡ none
      → (load s.world).0 ≡ threw e
      → ((fetch load now request s).0 ≡ error_response)
        × ((fetch load now request s).1.entry ≡ some (threw e))
  unfolding fetch get_server_entry
  fetch-import_failed request s e h failed = rw (h, failed) (refl, refl)

  -- If the first import of the server entry fails, every request is answered by the error page, though
  -- another import might not fail: the server never tries one.
  pub fetch_all_of_failed :
      (requests : List Request) (s : ServerState World Request E) (e : E)
      → s.entry ≡ none
      → (load s.world).0 ≡ threw e
      → All (λ r. r ≡ error_response) (fetch_all requests s)
  unfolding fetch_all
  fetch_all_of_failed [] s e h failed = tt
  fetch_all_of_failed (q ∷ qs) s e h failed =
      let (answer, kept_now) = fetch-import_failed q s e h failed in
      (answer, fetch_all_of_kept qs (fetch load now q s).1 e kept_now)
