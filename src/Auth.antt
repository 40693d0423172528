-- ===== src/Auth.antt =====
-- frontend/src/lib/auth.tsx: the signed-in user, `login`, `logout` and the probe on mount.
pub mod Laws
use jvm_scout.Base.{
  ◌++◌, ◌-◌, List, Option, none, some, Bool, true, false, Text, codes, is_empty, length, drop,
  if◌then◌else◌,
}
use jvm_scout.Client.Http.{
  Platform, ClientState, Result, Error, message, ok, err, get_api_key, set_api_key, verify_api_key,
}

pub record User : Type 0 where
  pub email : Text
  pub name : Text

-- `apiKey || null`
abbrev pub or_null : Text → Option Text
or_null key = if is_empty key then none else some key

-- `userFor`: the last four code units of the key.
unfoldable pub user_for : Option Text → User
user_for none = record { name = codes "Operator"; email = codes "unauthenticated" }
user_for (some key) = record {
  name = codes "Operator";
  email =
      if is_empty key
      then codes "unauthenticated"
      else codes "key ••••" ++ drop (length key - 4) key;
}

-- `user` and `ready` of the provider, and what the client and the browser keep.
pub record AuthState (World : Type 0) : Type 0 where
  pub user : Option User
  pub ready : Bool
  pub client : ClientState World

abbrev pub with_key : {World : Type 0} → Option Text → ClientState World → ClientState World
with_key key s = record s { storage = set_api_key key s.storage }

abbrev pub rejected : Error
rejected = message (codes "The collector rejected that API key.")

-- What `login` does with the verdict.
abbrev pub conclude :
    {World : Type 0}
    → Text
    → AuthState World
    → Result Bool × ClientState World
    → Result (Unit {0}) × AuthState World
conclude key a (r, s) = elim r [
  | ok accepted ↦
      if accepted
      then (ok tt, record a { user = some (user_for (or_null key)); client = s })
      else (err rejected, record a { client = with_key none s })
  | err e ↦ (err e, record a { client = s })
]

unfoldable pub login :
    {World : Type 0} → Platform World → Text → AuthState World → Result (Unit {0}) × AuthState World
login p key a = conclude key a (verify_api_key p (with_key (or_null key) a.client))

unfoldable pub logout : {World : Type 0} → AuthState World → AuthState World
logout a = record a { user = none; client = with_key none a.client }

-- The provider before its effect has run.
abbrev pub signed_out : {World : Type 0} → ClientState World → AuthState World
signed_out s = record { user = none; ready = false; client = s }

-- What the effect does with the verdict; a provider that is gone is left as it is.
abbrev pub settle :
    {World : Type 0} → (cancelled : Bool) → Result Bool → AuthState World → AuthState World
settle true r a = a
settle false (ok true) a = record a {
  user = some (user_for (get_api_key a.client.storage));
  ready = true;
}
settle false (ok false) a = record a { ready = true }
settle false (err e) a = record a { ready = true }

-- The effect of `AuthProvider`; an error leaves the user signed out.
unfoldable pub probe : {World : Type 0} → Platform World → Bool → AuthState World → AuthState World
probe p cancelled a =
    let (r, s) = verify_api_key p a.client in settle cancelled r (record a { client = s })
