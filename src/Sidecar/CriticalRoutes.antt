-- ===== src/Sidecar/CriticalRoutes.antt =====
-- services/sidecar/criticalroutes/criticalroutes.go: the set of critical routes, and the loop that
-- reloads it. The file system, the parser of YAML and the timer are not part of the repository:
-- the loop is driven by the events that they send.
pub mod Reload
use rate_cap.Prelude.{
  String, Bool, true, false, ◌||◌, ◌&&◌, not, List, [], ◌∷◌, Option, none, some, if◌then◌else◌,
  ◌==◌,
}

-- `map[string]struct{}`
abbrev pub Routes : Type 0
Routes = List String

abbrev pub has : Routes → String → Bool
has [] route = false
has (r ∷ routes) route = (r == route) || has routes route

-- The pointer in `Set` is nil until the first store.
abbrev pub Set : Type 0
Set = Option Routes

loaded_contains : Set → String → Bool
loaded_contains none route = false
loaded_contains (some routes) route = has routes route

-- `none` is the nil receiver.
unfoldable pub contains : Option Set → String → Bool
unfolding loaded_contains
contains none route = false
contains (some s) route = if route == "" then false else loaded_contains s route

-- What the loop of `Watch` may receive: an event for this file or another, the timer, an error, the
-- closing of a channel, or the call of `stop`. `Load` at the timer gives routes, or an error.
pub data Event : Type 0 where
  file_event : Bool → Event
  timer_fired : Option Routes → Event
  watch_error : Event
  closed stopped : Event

-- The set, whether the timer runs, and whether the goroutine has returned.
pub record Watcher : Type 0 where
  pub routes : Routes
  pub timer_runs : Bool
  pub returned : Bool

-- `Load` at the start gives the first set.
abbrev pub watch : Option Routes → Option Watcher
watch none = none
watch (some routes) = some (record { routes = routes; timer_runs = false; returned = false })

receive : Event → Watcher → Watcher
receive (file_event ours) w = if ours then record w { timer_runs = true } else w
receive (timer_fired none) w = record w { timer_runs = false }
receive (timer_fired (some routes)) w = record w { routes = routes; timer_runs = false }
receive watch_error w = w
receive closed w = record w { returned = true }
receive stopped w = record w { timer_runs = false; returned = true }

-- The timer sends only if it runs, and nothing is received after the return.
abbrev pub is_timer : Event → Bool
is_timer (timer_fired _) = true
is_timer _ = false

unfoldable pub step : Event → Watcher → Watcher
unfolding receive
step e w = if w.returned then w else (if is_timer e && not w.timer_runs then w else receive e w)

unfoldable pub run : List Event → Watcher → Watcher
run [] w = w
run (e ∷ es) w = run es (step e w)
