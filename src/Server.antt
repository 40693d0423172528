-- ===== src/Server.antt =====
-- frontend/src/lib/error-capture.ts, frontend/src/server.ts and the middleware of
-- frontend/src/start.ts. `Handler` is what `@tanstack/react-start/server-entry` exports.
pub mod ErrorPage
pub mod Laws
use jvm_scout.Base.{
  ℕ, ◌+◌, ◌∷◌, [], ◌++◌, List, Option, none, some, Bool, true, false, ◌&&◌, Text, codes, includes,
  ltb, if◌then◌else◌, ◌or_else◌,
}
use jvm_scout.Server.ErrorPage.{render_error_page}

-- A promise that is settled.
pub data Attempt (A : Type 0) (E : Type 0) : Type 0 where
  settled : A → Attempt A E
  threw : E → Attempt A E

-- `lastCapturedError`; the reason of a rejection may be undefined.
pub record Captured (E : Type 0) : Type 0 where
  pub error : Option E
  pub at : ℕ

abbrev pub capture_ttl_ms : ℕ
capture_ttl_ms = 5000

-- `record`
abbrev pub record_error : {E : Type 0} → ℕ → Option E → Option (Captured E)
record_error now error = some (record { error = error; at = now })

-- `consumeLastCapturedError`: what it returns, and what stays captured.
unfoldable pub consume : {E : Type 0} → ℕ → Option (Captured E) → Option E × Option (Captured E)
consume now none = (none, none)
consume now (some c) = if ltb (c.at + capture_ttl_ms) now then (none, none) else (c.error, none)

pub record Response : Type 0 where
  pub status : ℕ
  pub content_type : Option Text
  pub body : Text

abbrev pub error_response : Response
error_response = record {
  status = 500;
  content_type = some (codes "text/html; charset=utf-8");
  body = render_error_page;
}

-- The tests of `normalizeCatastrophicSsrResponse`, in their order.
unfoldable pub is_swallowed : Response → Bool
is_swallowed r =
    if ltb r.status 500
    then false
    else if includes (codes "application/json") (r.content_type or_else [])
    then includes (codes "\"unhandled\":true") r.body
      && includes (codes "\"message\":\"HTTPError\"") r.body
    else false

-- What `console.error` is given: an error, or the new one that names the swallowed body.
pub data Logged (E : Type 0) : Type 0 where
  caught : E → Logged E
  swallowed : Text → Logged E

abbrev pub logged_of : {E : Type 0} → Option E → Text → Logged E
logged_of none body = swallowed body
logged_of (some e) body = caught e

module _ (World Request E : Type 0) where
  abbrev pub Handler : Type 0
  Handler = Request → World → Attempt Response E × World

  -- The server: `serverEntryPromise`, the captured error, the console, and the rest of the world.
  pub record ServerState : Type 0 where
    pub entry : Option (Attempt Handler E)
    pub captured : Option (Captured E)
    pub console : List (Logged E)
    pub world : World

module _ {World Request E : Type 0} where
  -- `load` is the import of the server entry, and `now` is `Date.now`.
  module _ (load : World → Attempt (Handler World Request E) E × World)
      (now : World → ℕ × World) where
    -- `getServerEntry`: the promise is kept, also one that was rejected.
    unfoldable pub get_server_entry :
        ServerState World Request E
        → Attempt (Handler World Request E) E × ServerState World Request E
    get_server_entry s = elim s.entry [
      | some entry ↦ (entry, s)
      | none ↦ let (entry, w) = load s.world in (entry, record s { entry = some entry; world = w })
    ]

    -- `normalizeCatastrophicSsrResponse`
    unfoldable pub normalize :
        Response → ServerState World Request E → Response × ServerState World Request E
    normalize r s =
        if is_swallowed r
        then (let (t, w) = now s.world in
            let (error, left) = consume t s.captured in
            (
              error_response,
              record s {
                captured = left;
                console = s.console ++ logged_of error r.body ∷ [];
                world = w;
              },
            ))
        else (r, s)

    -- The `catch` of `fetch`.
    abbrev pub failed : E → ServerState World Request E → Response × ServerState World Request E
    failed e s = (error_response, record s { console = s.console ++ caught e ∷ [] })

    abbrev pub conclude :
        Attempt Response E × World
        → ServerState World Request E
        → Response × ServerState World Request E
    conclude (settled r, w) s = normalize r (record s { world = w })
    conclude (threw e, w) s = failed e (record s { world = w })

    abbrev pub handle :
        Request
        → Attempt (Handler World Request E) E × ServerState World Request E
        → Response × ServerState World Request E
    handle request (settled handler, s) = conclude (handler request s.world) s
    handle request (threw e, s) = failed e s

    -- `fetch` of the default export.
    unfoldable pub fetch :
        Request → ServerState World Request E → Response × ServerState World Request E
    fetch request s = handle request (get_server_entry s)

-- The middleware `errorMiddleware`: `has_status_code` says whether the error is an object with a
-- `statusCode`; such an error goes on. The second component is what is logged.
unfoldable pub error_middleware :
    {E : Type 0} → (E → Bool) → Attempt Response E → Attempt Response E × List (Logged E)
error_middleware has_status_code (settled r) = (settled r, [])
error_middleware has_status_code (threw e) =
    if has_status_code e then (threw e, []) else (settled error_response, caught e ∷ [])
