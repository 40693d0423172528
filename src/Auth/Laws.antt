-- ===== src/Auth/Laws.antt =====
-- Which key is stored after `login`, for each verdict of the collector.
use jvm_scout.Base.{
  ◌≡◌, refl, ◌⊎◌, ap, ◌∙◌, arith, ◌∷◌, [], List, Option, none, some, Bool, true, false, inl, inr,
  not, filter, Text, text_dec, is_empty, lookup, lookup-insert, if◌then◌else◌, ◌==◌,
}
use jvm_scout.Client.Http.{
  Platform, ClientState, Storage, Result, Error, ok, err, api_key_storage, get_api_key, set_api_key,
  verify_api_key, http-Keeps,
}
use jvm_scout.Client.Endpoints.{Endpoint}
use jvm_scout.Auth.{AuthState, User, user_for, with_key, rejected, conclude, login}

lookup-removed :
    (k : Text) (entries : List (Text × Text))
    → lookup k (filter (λ e. not (e.0 == k)) entries) ≡ none
unfolding lookup
lookup-removed k [] = refl
lookup-removed k (e ∷ es) = ground (arith, lookup-removed k es)

get-set_some :
    (st : Storage) (k : Text)
    → st.denied ≡ false
    → is_empty k ≡ false
    → get_api_key (set_api_key (some k) st) ≡ some k
unfolding get_api_key set_api_key
get-set_some st k d e = ground (arith, lookup-insert api_key_storage api_key_storage k st.entries)

get-set_none : (st : Storage) → get_api_key (set_api_key none st) ≡ none
unfolding get_api_key set_api_key
get-set_none st = ground (arith, lookup-removed api_key_storage st.entries)

module _ {World : Type 0} (p : Platform World) (key : Text) (a : AuthState World)
    (allowed : a.client.storage.denied ≡ false) (keyed : is_empty key ≡ false) where
  abbrev pub verified : Result Bool × ClientState World
  verified = verify_api_key p (with_key (some key) a.client)

  verified-storage : verified.1.storage ≡ set_api_key (some key) a.client.storage
  unfolding verify_api_key
  verified-storage = (http-Keeps p Endpoint.stats (with_key (some key) a.client)).storage

  stored : get_api_key verified.1.storage ≡ some key
  stored = rw verified-storage (get-set_some a.client.storage key allowed keyed)

  abbrev pub after : Result (Unit {0}) × AuthState World
  after = login p key a

  -- The call ends with a result, and leaves a stored key and a user.
  pub record Leaves (result : Result (Unit {0})) (stored_key : Option Text) (user : Option User)
      : Type 0 where
    pub result_is : after.0 ≡ result
    pub key_is : get_api_key after.1.client.storage ≡ stored_key
    pub user_is : after.1.user ≡ user

  login_lem : (r : Result Bool) → verified.0 ≡ r → login p key a ≡ conclude key a (r, verified.1)
  unfolding login
  login_lem r e = rw keyed (ap (λ v. conclude key a (v, verified.1)) e)

  leaves :
      (x : Result (Unit {0}) × AuthState World) (k : Option Text) (u : Option User)
      → login p key a ≡ x
      → get_api_key x.1.client.storage ≡ k
      → x.1.user ≡ u
      → Leaves x.0 k u
  leaves x k u e h g = record {
    result_is = ap (λ y. y.0) e;
    key_is = ap (λ y. get_api_key y.1.client.storage) e ∙ h;
    user_is = ap (λ y. y.1.user) e ∙ g;
  }

  -- A login with a key, where the browser allows storage. On success the key is stored and the user
  -- is set. A rejected key is removed again and the user stays. On any other error the call fails
  -- with it, the user stays, and the key that was not verified stays stored.
  pub login-get_api_key :
      ((verified.0 ≡ ok true) × Leaves (ok tt) (some key) (some (user_for (some key))))
      ⊎ (((verified.0 ≡ ok false) × Leaves (err rejected) none a.user)
          ⊎ ((e : Error) × (verified.0 ≡ err e) × Leaves (err e) (some key) a.user))
  login-get_api_key = elim (verdicts verified.0) [
    | inl e ↦ inl (
      e,
      leaves _ (some key) (some (user_for (some key))) (login_lem (ok true) e) stored
          (ap (λ b. some (user_for (if b then none else some key))) keyed),
    )
    | inr (inl e) ↦ inr (
        inl
          (e, leaves _ none a.user (login_lem (ok false) e) (get-set_none verified.1.storage) refl))
    | inr (inr (x, e)) ↦
        inr (inr (x, e, leaves _ (some key) a.user (login_lem (err x) e) stored refl))
  ]
    where
      verdicts : (r : Result Bool) → (r ≡ ok true) ⊎ ((r ≡ ok false) ⊎ ((e : Error) × (r ≡ err e)))
      verdicts (ok true) = inl refl
      verdicts (ok false) = inr (inl refl)
      verdicts (err e) = inr (inr (e, refl))
