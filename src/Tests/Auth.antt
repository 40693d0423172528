-- ===== src/Tests/Auth.antt =====
-- The theorem about frontend/src/lib/auth.tsx at a concrete input.
use jvm_scout.Base.{◌≡◌, refl, ◌⊎◌, none, some, true, false, Text, codes}
use jvm_scout.Client.Http.{Error, ok, err}
use jvm_scout.Auth.{AuthState, signed_out, user_for, rejected}
use jvm_scout.Auth.Laws.{verified, Leaves, login-get_api_key}
use jvm_scout.Tests.Data.{Tables, down, start}

abbrev secret : Text
secret = codes "secret"

abbrev visitor : AuthState Tables
visitor = signed_out start

login-get_api_key_example :
    ((verified down secret visitor refl refl).0 ≡ ok true
      × Leaves down secret visitor refl refl (ok tt) (some secret) (some (user_for (some secret))))
    ⊎ (((verified down secret visitor refl refl).0 ≡ ok false
          × Leaves down secret visitor refl refl (err rejected) none none)
        ⊎ ((e : Error) × ((verified down secret visitor refl refl).0 ≡ err e)
            × Leaves down secret visitor refl refl (err e) (some secret) none))
login-get_api_key_example = login-get_api_key down secret visitor refl refl
