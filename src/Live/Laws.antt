-- ===== src/Live/Laws.antt =====
-- The socket is kept, refreshes are merged, and nothing happens after the unmount.
use jvm_scout.Base.{
  ℕ, suc, ◌≡◌, refl, ap, ◌∙◌, ◌⊎◌, inl, inr, arith, ◌∷◌, [], List, Option, none, some, Bool, true,
  false, any, ◌||◌, Text,
}
use jvm_scout.Live.{
  Live, is_news, on_message, on_close, open_socket, schedule_refresh, refresh, unmount, mount,
}
use jvm_scout.Live.Steps.{
  Step, message, dropped, reconnect_due, debounce_due, unmounted, Reach, here, next,
}

-- Mounted, the effect has an open socket or a pending reconnection, and not both; unmounted, it has no
-- socket and no timer.
pub data IsSound (s : Live) : Type 0 where
  connected : s.closed ≡ false → s.socket ≡ true → s.reconnect ≡ none → IsSound s
  waiting : (delay : ℕ) → s.closed ≡ false → s.socket ≡ false → s.reconnect ≡ some delay → IsSound s
  ended : s.closed ≡ true → s.socket ≡ false → s.reconnect ≡ none → s.debounce ≡ false → IsSound s

mount-IsSound : (b : Bool) → IsSound (mount b)
unfolding open_socket
mount-IsSound true = connected refl refl refl
mount-IsSound false = waiting 5000 refl refl refl

true-ne-false : {b : Bool} → b ≡ true → b ≡ false → ⊥
true-ne-false h k = cc

-- A message changes no more than the debounce timer.
on_message_same :
    (kind : Option Text) (s : Live)
    → ((on_message kind s).closed ≡ s.closed)
      × ((on_message kind s).socket ≡ s.socket)
      × ((on_message kind s).reconnect ≡ s.reconnect)
      × ((on_message kind s).refreshes ≡ s.refreshes)
      × ((on_message kind s).debounce ≡ (s.debounce || is_news kind))
unfolding on_message schedule_refresh
on_message_same kind s = ground arith

on_close-IsSound :
    (s : Live) → IsSound s → s.socket ≡ true → IsSound (on_close (record s { socket = false }))
unfolding on_close
on_close-IsSound s (connected mounted up idle) h =
    waiting 3000 (rw mounted refl) (rw mounted refl) (rw mounted refl)
on_close-IsSound s (waiting delay mounted down due) h = absurd (true-ne-false h down)
on_close-IsSound s (ended over down idle quiet) h = absurd (true-ne-false h down)

none-ne-some : {n : ℕ} {o : Option ℕ} → o ≡ none → o ≡ some n → ⊥
none-ne-some h k = cc

open_socket-IsSound :
    (s : Live) (b : Bool) (delay : ℕ)
    → IsSound s
    → s.reconnect ≡ some delay
    → IsSound (open_socket b (record s { reconnect = none }))
unfolding open_socket
open_socket-IsSound s true delay (waiting d mounted down due) h =
    connected (rw mounted refl) (rw mounted refl) (rw mounted refl)
open_socket-IsSound s false delay (waiting d mounted down due) h =
    waiting 5000 (rw mounted refl) (rw mounted down) (rw mounted refl)
open_socket-IsSound s b delay (connected mounted up idle) h = absurd (none-ne-some idle h)
open_socket-IsSound s b delay (ended over down idle quiet) h = absurd (none-ne-some idle h)

Step-IsSound : {s t : Live} → Step s t → IsSound s → IsSound t
unfolding refresh unmount
Step-IsSound {s = s} (message kind up) (connected mounted _ idle) =
    let (c, so, r, _, _) = on_message_same kind s in connected (c ∙ mounted) (so ∙ up) (r ∙ idle)
Step-IsSound (message kind up) (waiting delay mounted down due) = absurd (true-ne-false up down)
Step-IsSound (message kind up) (ended over down idle quiet) = absurd (true-ne-false up down)
Step-IsSound {s = s} (dropped up) h = on_close-IsSound s h up
Step-IsSound {s = s} (reconnect_due delay b due) h = open_socket-IsSound s b delay h due
Step-IsSound (debounce_due due) (connected mounted up idle) = connected mounted up idle
Step-IsSound (debounce_due due) (waiting delay mounted down timer) =
    waiting delay mounted down timer
Step-IsSound (debounce_due due) (ended over down idle quiet) = ended over down idle refl
Step-IsSound (unmounted up) h = ended refl refl refl refl

pub Reach-IsSound : (b : Bool) {t : Live} → Reach (mount b) t → IsSound t
Reach-IsSound b here = mount-IsSound b
Reach-IsSound b (next r st) = Step-IsSound st (Reach-IsSound b r)

-- As long as it is mounted, whatever has happened, at most one step of the browser (a reconnection that
-- succeeds) gives an open socket.
pub reconnects :
    (b : Bool) {t : Live}
    → Reach (mount b) t
    → t.closed ≡ false
    → (t.socket ≡ true) ⊎ ((u : Live) × Step t u × (u.socket ≡ true))
unfolding open_socket
reconnects b {t} r mounted = elim (Reach-IsSound b r) [
  | connected _ up idle ↦ inl up
  | waiting delay _ down due ↦ inr (
    open_socket true (record t { reconnect = none }),
    reconnect_due delay true due,
    rw mounted refl,
  )
  | ended over _ _ _ ↦ absurd (true-ne-false over mounted)
]

final_of_ended : {t u : Live} → t.closed ≡ true → IsSound t → Step t u → ⊥
final_of_ended over (connected mounted up idle) st = true-ne-false over mounted
final_of_ended over (waiting delay mounted down due) st = true-ne-false over mounted
final_of_ended over (ended _ down idle quiet) (message kind up) = true-ne-false up down
final_of_ended over (ended _ down idle quiet) (dropped up) = true-ne-false up down
final_of_ended over (ended _ down idle quiet) (reconnect_due delay b due) = none-ne-some idle due
final_of_ended over (ended _ down idle quiet) (debounce_due due) = true-ne-false due quiet
final_of_ended over (ended _ down idle quiet) (unmounted mounted) = true-ne-false over mounted

-- After the unmount nothing happens any more: no message, no reconnection, no refresh.
pub unmounted_final : (b : Bool) {t u : Live} → Reach (mount b) t → t.closed ≡ true → ¬ Step t u
unmounted_final b r over st = final_of_ended over (Reach-IsSound b r) st

-- The messages of a burst, before the debounce timer is due.
unfoldable pub burst : List (Option Text) → Live → Live
burst [] s = s
burst (kind ∷ kinds) s = burst kinds (on_message kind s)

-- However many messages arrive before the debounce timer is due, at most one refresh is pending: it is
-- if it was before or one of them is news; and when it is due, it happens once.
pub burst_merged :
    (kinds : List (Option Text)) (s : Live)
    → ((burst kinds s).debounce ≡ (s.debounce || any is_news kinds))
      × ((refresh (burst kinds s)).refreshes ≡ suc s.refreshes)
      × ((refresh (burst kinds s)).debounce ≡ false)
unfolding burst refresh
burst_merged [] s = (ground arith, refl, refl)
burst_merged (kind ∷ kinds) s =
    let (_, _, _, n, d) = on_message_same kind s in
    let (more, count, _) = burst_merged kinds (on_message kind s) in
    (ground (arith, d, more), count ∙ ap suc n, refl)
