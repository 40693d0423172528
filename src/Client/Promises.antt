-- ===== src/Client/Promises.antt =====
-- `Promise.all` in frontend/src/integrations/collector: every call is made, in the order of the list,
-- and then the first that failed decides. The replies arrive in the order of the calls.
use jvm_scout.Base.{◌≡◌, refl, ◌∷◌, [], List}
use jvm_scout.Client.Http.{ClientState, Effect, Result, ok, err}

abbrev pub both : {A B : Type 0} → Result A → Result B → Result (A × B)
both (ok a) (ok b) = ok (a, b)
both (err e) r = err e
both (ok a) (err e) = err e

abbrev pub together : {World A B : Type 0} → Effect World A → Effect World B → Effect World (A × B)
together m k s = let (a, s') = m s in let (b, s'') = k s' in (both a b, s'')

abbrev consed : {A : Type 0} → Result A → Result (List A) → Result (List A)
consed (ok a) (ok rest) = ok (a ∷ rest)
consed (err e) r = err e
consed (ok a) (err e) = err e

-- `Promise.all(xs.map(f))`
unfoldable pub all_of : {World A B : Type 0} → (A → Effect World B) → List A → Effect World (List B)
all_of f [] s = (ok [], s)
all_of f (x ∷ xs) s = let (b, s') = f x s in let (bs, s'') = all_of f xs s' in (consed b bs, s'')

pub all_of-one :
    {World A B : Type 0} (f : A → Effect World B) (a : A) {b : B} {s s' : ClientState World}
    → f a s ≡ (ok b, s')
    → all_of f (a ∷ []) s ≡ (ok (b ∷ []), s')
unfolding all_of
all_of-one f a e = rw e refl
