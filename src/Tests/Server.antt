-- ===== src/Tests/Server.antt =====
-- The theorems about frontend/src/server.ts at concrete inputs.
use jvm_scout.Base.{ℕ, zero, suc, ◌≡◌, refl, [], ◌∷◌, none, some, Text, codes, All}
use jvm_scout.Server.{
  Attempt, settled, threw, Handler, Response, ServerState, error_response, fetch,
}
use jvm_scout.Server.Laws.{IsEntry, IsAnswer, fetch-IsAnswer, fetch_all, fetch_all_of_failed}

abbrev swallowed_response : Response
swallowed_response = record {
  status = 500;
  content_type = some (codes "application/json");
  body = codes "{\"unhandled\":true,\"message\":\"HTTPError\"}";
}

-- The clock of the world stands at 7, and its handler's answers have a swallowed error.
abbrev clock : ℕ → ℕ × ℕ
clock w = (7, w)

abbrev swallowing : ℕ → Attempt (Handler ℕ Text Text) Text × ℕ
swallowing w = (settled (λ request v. (settled swallowed_response, v)), w)

-- An import that fails in the world 0, and not in the others.
abbrev flaky : ℕ → Attempt (Handler ℕ Text Text) Text × ℕ
flaky zero = (threw (codes "no module"), 1)
flaky (suc w) = swallowing (suc w)

abbrev booted : ServerState ℕ Text Text
booted = record { entry = none; captured = none; console = []; world = 0 }

fetch-IsAnswer_example :
    (entry : Attempt (Handler ℕ Text Text) Text) × (w : ℕ) × IsEntry swallowing clock booted entry w
    × IsAnswer swallowing clock entry
        (codes "/")
        w
        []
        (fetch swallowing clock (codes "/") booted).0
        (fetch swallowing clock (codes "/") booted).1
fetch-IsAnswer_example = fetch-IsAnswer swallowing clock (codes "/") booted

fetch_all_of_failed_example :
    All (λ r. r ≡ error_response) (fetch_all flaky clock (codes "/" ∷ codes "/login" ∷ []) booted)
fetch_all_of_failed_example =
    fetch_all_of_failed flaky clock (codes "/" ∷ codes "/login" ∷ []) booted (codes "no module")
      refl refl
