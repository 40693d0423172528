-- ===== src/Live/Steps.antt =====
-- What can happen to the effect of `useLiveUpdates`: the browser delivers messages and `close` on an
-- open socket only, and runs a timer that is pending. An error closes the socket.
use jvm_scout.Base.{ℕ, Option, none, some, Bool, true, false, ◌≡◌, Text}
use jvm_scout.Live.{Live, on_message, on_close, open_socket, refresh, unmount}

pub data Step (s : Live) : Live → Type 0 where
  message : (kind : Option Text) → s.socket ≡ true → Step s (on_message kind s)
  dropped : s.socket ≡ true → Step s (on_close (record s { socket = false }))
  reconnect_due :
      (delay : ℕ) (connected : Bool)
      → s.reconnect ≡ some delay
      → Step s (open_socket connected (record s { reconnect = none }))
  debounce_due : s.debounce ≡ true → Step s (refresh s)
  unmounted : s.closed ≡ false → Step s (unmount s)

pub data Reach (s : Live) : Live → Type 0 where
  here : Reach s s
  next : {t u : Live} → Reach s t → Step t u → Reach s u
