-- ===== src/Client/Socket.antt =====
-- frontend/src/integrations/collector/client.ts: `connectLiveSocket`.
use jvm_scout.Base.{
  false, ℕ_discrete, [], ◌++◌, ◌≡◌, refl, Option, none, some, Bool, Text, codes, starts_with, drop,
  is_empty, if◌then◌else◌,
}
use jvm_scout.Client.Http.{Platform, ClientState, Storage, get_api_key}

-- `BASE || window.location.origin`
abbrev pub http_base : (base origin : Text) → Text
http_base base origin = if is_empty base then origin else base

-- `httpBase.replace(/^http/, "ws")`
unfoldable pub ws_base : Text → Text
ws_base base = if starts_with (codes "http") base then codes "ws" ++ drop 4 base else base

-- `key ? ... : ""`
abbrev pub key_query : (Text → Text) → Option Text → Text
key_query encode none = []
key_query encode (some key) = if is_empty key then [] else codes "?key=" ++ encode key

unfoldable pub socket_url : (encode : Text → Text) → (base origin : Text) → Storage → Text
socket_url encode base origin st =
    ws_base (http_base base origin) ++ (codes "/ws/live" ++ key_query encode (get_api_key st))

-- `ws.onmessage`: what JSON.parse makes of the frame goes to the handler; `parse` is none where it
-- throws, and what the handler throws is caught as well.
abbrev pub on_frame :
    {Msg S : Type 0} → (parse : Text → Option Msg) → (handler : Msg → S → S) → Text → S → S
on_frame parse handler frame s = elim (parse frame) [ none ↦ s | some msg ↦ handler msg s ]

-- The address of the socket; none is the `null` where `new WebSocket` throws.
unfoldable pub connect_live_socket :
    {World : Type 0}
    → (opens : Text → Bool) → Platform World
    → (base origin : Text) → ClientState World
    → Option Text
connect_live_socket opens p base origin s =
    let url = socket_url p.encode base origin s.storage in if opens url then some url else none

-- The socket of a collector at an address with the scheme `http` or `https` has the address with `ws` or
-- `wss`, and the stored key is the last parameter of it, encoded.
socket_url-http :
    (encode : Text → Text) (rest origin key : Text) (st : Storage)
    → get_api_key st ≡ some key
    → is_empty key ≡ false
    → socket_url encode (codes "http" ++ rest) origin st
      ≡ codes "ws" ++ (rest ++ (codes "/ws/live" ++ (codes "?key=" ++ encode key)))
unfolding socket_url ws_base starts_with ℕ_discrete
socket_url-http encode rest origin key st stored given = rw (stored, given) refl
