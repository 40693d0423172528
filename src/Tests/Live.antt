-- ===== src/Tests/Live.antt =====
-- The theorems about frontend/src/lib/use-live-updates.tsx at concrete inputs.
use jvm_scout.Base.{◌≡◌, refl, ◌⊎◌, Option, some, true, false, Text, codes, text_dec, text_discrete}
use jvm_scout.Live.{Live, mount, on_message, on_close, open_socket, schedule_refresh}
use jvm_scout.Live.Steps.{Step, message, dropped, Reach, here, next}
use jvm_scout.Live.Laws.{reconnects}

abbrev news : Option Text
news = some (codes "exception")

-- The socket dropped after a message that is news.
abbrev lost : Live
lost = on_close (record (on_message news (mount true)) { socket = false })

lost-Reach : Reach (mount true) lost
unfolding open_socket on_message schedule_refresh text_discrete
lost-Reach = next (next here (message news refl)) (dropped refl)

lost-mounted : lost.closed ≡ false
unfolding on_close open_socket on_message schedule_refresh text_discrete
lost-mounted = refl

reconnects_example : (lost.socket ≡ true) ⊎ ((u : Live) × Step lost u × (u.socket ≡ true))
reconnects_example = reconnects true lost-Reach lost-mounted
