-- ===== src/Live.antt =====
-- frontend/src/lib/use-live-updates.tsx: the effect of `useLiveUpdates`, with its socket and timers.
pub mod Steps
pub mod Laws
use jvm_scout.Base.{
  ℕ, suc, Option, none, some, Bool, true, false, ◌||◌, Text, codes, text_dec, if◌then◌else◌, ◌==◌,
}

-- The variables of the effect. `socket` says whether `ws` is an open socket, `reconnect` has the delay
-- of the pending timer, `debounce` says whether `debounceTimer` is set; `refreshes` counts the
-- refreshes, each of which drops the client's cache and invalidates the queries.
pub record Live : Type 0 where
  pub closed : Bool
  pub socket : Bool
  pub reconnect : Option ℕ
  pub debounce : Bool
  pub refreshes : ℕ

abbrev pub debounce_ms : ℕ
debounce_ms = 800

-- `msg && (msg.kind === "exception" || msg.kind === "agent_start")`; null and the like have no kind.
abbrev pub is_news : Option Text → Bool
is_news none = false
is_news (some kind) = kind == codes "exception" || kind == codes "agent_start"

-- `scheduleRefresh`
unfoldable pub schedule_refresh : Live → Live
schedule_refresh s = if s.debounce then s else record s { debounce = true }

-- The callback of the debounce timer.
unfoldable pub refresh : Live → Live
refresh s = record s { debounce = false; refreshes = suc s.refreshes }

-- `open`, as the timer or the effect calls it; `connected` says whether `connectLiveSocket` returned a
-- socket.
unfoldable pub open_socket : Bool → Live → Live
open_socket connected s =
    if s.closed
    then s
    else if connected
    then record s { socket = true }
    else record s { reconnect = some 5000 }

-- The callback of the socket's messages.
unfoldable pub on_message : Option Text → Live → Live
on_message kind s = if is_news kind then schedule_refresh s else s

-- `ws.onclose`, of a socket that is no longer open.
unfoldable pub on_close : Live → Live
on_close s = if s.closed then s else record s { reconnect = some 3000 }

-- The function that the effect returns: both timers are cleared and the socket is closed.
unfoldable pub unmount : Live → Live
unmount s = record s { closed = true; socket = false; reconnect = none; debounce = false }

-- The effect, up to its return.
abbrev pub mount : Bool → Live
mount connected =
    open_socket connected
      (record { closed = false; socket = false; reconnect = none; debounce = false; refreshes = 0 })
