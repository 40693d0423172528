-- ===== src/Client/Http.antt =====
-- frontend/src/integrations/collector/client.ts: the API key, `authHeaders`, `http`, and the state
-- that the module and the browser keep between calls.
use jvm_scout.Base.{
  ℕ, List, Option, none, some, Bool, true, false, ◌&&◌, Text, codes, text_dec, nat_dec, is_empty,
  insert, lookup, filter, not, ltb, leb, if◌then◌else◌, ◌==◌, ◌≡◌, refl, ap, ◌∙◌, ◌≢◌, ◌⊎◌, inl,
  inr, arith,
}
use jvm_scout.Client.Rows.{ExceptionListRow}
use jvm_scout.Client.Endpoints.{Endpoint, Reply, Instance, path_of, extra_headers}

-- Why a call throws. `out_of_fuel` is the model's own; it is proved never to occur.
pub data Error : Type 0 where
  auth_error network_error syntax_error type_error out_of_fuel : Error
  http_error : (status : ℕ) (path : Text) → Error
  message : Text → Error

pub data Result {ℓ} (A : Type ℓ) : Type ℓ where
  ok : A → Result A
  err : Error → Result A

pub data Body {ℓ} (A : Type ℓ) : Type ℓ where
  empty malformed : Body A
  parsed : A → Body A

pub data Fetched {ℓ} (A : Type ℓ) : Type ℓ where
  unreachable : Fetched A
  response : (status : ℕ) → Body A → Fetched A

-- `localStorage`: every access throws where the browser denies it.
pub record Storage : Type 0 where
  pub denied : Bool
  pub entries : List (Text × Text)

-- The browser and the collector behind it: `fetch`, `Date.now`, `encodeURIComponent`, and the values of
-- `URLSearchParams`.
pub record Platform (World : Type 0) : Type 0 where
  pub fetch : (e : Endpoint) → List (Text × Text) → World → Fetched (Reply e) × World
  pub now : World → ℕ × World
  pub encode : Text → Text
  pub encode_form : Text → Text

pub record Cached {ℓ} (A : Type ℓ) : Type ℓ where
  pub at : ℕ
  pub rows : A

-- `_excCache` and `_instCache`, `localStorage`, and the rest of the world.
pub record ClientState (World : Type 0) : Type 0 where
  pub exc_cache : Option (Cached (List ExceptionListRow))
  pub inst_cache : Option (Cached (Option (List Instance)))
  pub storage : Storage
  pub world : World

abbrev pub Effect : Type 0 → Type 0 → Type 0
Effect World A = ClientState World → Result A × ClientState World

-- What follows an effect: its continuation at the value, or the error passed on.
abbrev pub resume :
    {World A B : Type 0}
    → (A → Effect World B)
    → Result A × ClientState World
    → Result B × ClientState World
resume k (r, s) = elim r [ ok a ↦ k a s | err e ↦ (err e, s) ]

infixl 5 ◌>>=◌ ◌>>◌
abbrev pub ◌>>=◌ : {World A B : Type 0} → Effect World A → (A → Effect World B) → Effect World B
◌>>=◌ m k s = resume k (m s)

abbrev pub ◌>>◌ : {World B : Type 0} → Effect World (Unit {0}) → Effect World B → Effect World B
m >> k = m >>= λ _. k

abbrev pub pure : {World A : Type 0} → A → Effect World A
pure a s = (ok a, s)

abbrev pub throw : {World A : Type 0} → Error → Effect World A
throw e s = (err e, s)

module _ {World A B : Type 0} (m : Effect World A) (k : A → Effect World B)
    {s s' : ClientState World} where
  pub >>=-ok : {a : A} → m s ≡ (ok a, s') → (m >>= k) s ≡ k a s'
  >>=-ok e = ap (resume k) e

  pub >>=-err : {x : Error} → m s ≡ (err x, s') → (m >>= k) s ≡ (err x, s')
  >>=-err e = ap (resume k) e

abbrev pub api_key_storage : Text
api_key_storage = codes "jvmscout_api_key"

-- `getApiKey`, with its `catch`.
unfoldable pub get_api_key : Storage → Option Text
get_api_key st = if st.denied then none else lookup api_key_storage st.entries

-- `setApiKey`: an empty key is removed, as null is; a denied access is ignored.
unfoldable pub set_api_key : Option Text → Storage → Storage
set_api_key key st = if st.denied then st else record st {
  entries = elim key [
    | none ↦ filter (λ e. not (e.0 == api_key_storage)) st.entries
    | some k ↦
        if is_empty k
        then filter (λ e. not (e.0 == api_key_storage)) st.entries
        else insert api_key_storage k st.entries
  ];
}

-- `authHeaders`: an empty or missing key adds no header.
unfoldable pub auth_headers : List (Text × Text) → Option Text → List (Text × Text)
auth_headers extra none = extra
auth_headers extra (some key) = if is_empty key then extra else insert (codes "X-API-Key") key extra

-- `res.ok`
abbrev pub is_ok_status : ℕ → Bool
is_ok_status status = leb 200 status && ltb status 300

-- What `http` makes of the text of a reply: `undefined` is `none`.
abbrev pub read_body {ℓ} : {A : Type ℓ} → Body A → Result (Option A)
read_body empty = ok none
read_body malformed = err syntax_error
read_body (parsed a) = ok (some a)

-- What `http` makes of an answer.
unfoldable pub answer {ℓ} : {A : Type ℓ} → Text → Fetched A → Result (Option A)
answer path unreachable = err network_error
answer path (response status body) =
    if status == 401
    then err auth_error
    else if is_ok_status status
    then if status == 204 then ok none else read_body body
    else err (http_error status path)

abbrev pub get_now : {World : Type 0} → Platform World → Effect World ℕ
get_now p s = let (t, w) = p.now s.world in (ok t, record s { world = w })

unfoldable pub http :
    {World : Type 0} → Platform World → (e : Endpoint) → Effect World (Option (Reply e))
http p e s =
    let (reply, w) = p.fetch e (auth_headers (extra_headers e) (get_api_key s.storage)) s.world in
    (answer (path_of p.encode p.encode_form e) reply, record s { world = w })

-- A value that the caller reads a property of: `undefined` throws.
abbrev pub need : {World A : Type 0} → Option A → Effect World A
need none = throw type_error
need (some a) = pure a

abbrev pub verdict : Result (Option (Unit {0})) → Result Bool
verdict (ok _) = ok true
verdict (err auth_error) = ok false
verdict (err e) = err e

-- `verifyApiKey`: false on 401 only; any other error goes on to the caller.
unfoldable pub verify_api_key : {World : Type 0} → Platform World → Effect World Bool
verify_api_key p s = let (r, s') = http p Endpoint.stats s in (verdict r, s')

-- The three ways in which a call of `http` can end, with the equation kept.
pub Result-cases {ℓ} :
    {A : Type ℓ} (r : Result (Option A))
    → ((a : A) × (r ≡ ok (some a))) ⊎ ((r ≡ ok none) ⊎ ((e : Error) × (r ≡ err e)))
Result-cases (ok (some a)) = inl (a, refl)
Result-cases (ok none) = inr (inl refl)
Result-cases (err e) = inr (inr (e, refl))

answer-ne-out_of_fuel {ℓ} :
    {A : Type ℓ} (path : Text) (f : Fetched A) → answer path f ≢ err out_of_fuel
unfolding answer
answer-ne-out_of_fuel path unreachable = cc
answer-ne-out_of_fuel path (response status empty) = ground arith
answer-ne-out_of_fuel path (response status malformed) = ground arith
answer-ne-out_of_fuel path (response status (parsed a)) = ground arith

pub http-ne-out_of_fuel :
    {World : Type 0} (p : Platform World) (e : Endpoint) (s : ClientState World)
    → (http p e s).0 ≢ err out_of_fuel
unfolding http
http-ne-out_of_fuel p e s = answer-ne-out_of_fuel _ _

-- The caches and the storage are the same in both states.
pub record Keeps {World : Type 0} (s t : ClientState World) : Type 0 where
  pub exc_cache : t.exc_cache ≡ s.exc_cache
  pub inst_cache : t.inst_cache ≡ s.inst_cache
  pub storage : t.storage ≡ s.storage

pub Keeps-refl : {World : Type 0} (s : ClientState World) → Keeps s s
Keeps-refl s = record { exc_cache = refl; inst_cache = refl; storage = refl }

pub Keeps-trans : {World : Type 0} {s t u : ClientState World} → Keeps s t → Keeps t u → Keeps s u
Keeps-trans h k = record {
  exc_cache = k.exc_cache ∙ h.exc_cache;
  inst_cache = k.inst_cache ∙ h.inst_cache;
  storage = k.storage ∙ h.storage;
}

pub http-Keeps :
    {World : Type 0} (p : Platform World) (e : Endpoint) (s : ClientState World)
    → Keeps s (http p e s).1
unfolding http
http-Keeps p e s = record { exc_cache = refl; inst_cache = refl; storage = refl }
