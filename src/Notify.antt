-- ===== src/Notify.antt =====
-- internal/notify/manager.go: failure streaks for each device, and alerts on the transitions. The
-- lock makes the change of state one atomic step; `fire` runs after it, on the caller's goroutine.
pub mod Senders
pub mod Streaks
pub mod Alerts
mod Examples
use whatunga.Prelude.{ℕ, ◌+◌, Bool, true, false, not, ◌&&◌, Option, none, some, List, [], ◌∷◌, ◌++◌}
use whatunga.Prelude.{Str, ltb, ◌==◌, if◌then◌else◌}
use whatunga.Prelude.Int.{ℤ, pos, negsuc}
use whatunga.Prelude.Maps.{Map, lookup, insert}
use whatunga.Monitor.{Kind, Time}

-- `""`, `"up"` and `"down"`: the only values that the program stores in a Status.
pub data Status : Type 0 where
  unknown up down : Status

pub record Event : Type 0 where
  pub device : Str
  pub kind : Kind
  pub status : Status
  pub message : Str
  pub time : Time

-- Anything with a `Notify` method, which answers an error or nil.
pub record Notifier : Type 0 where
  pub notify : Event → Option Str

pub record DeviceState : Type 0 where
  pub status : Status
  pub consecutive_failures : ℕ
  pub last_change : Time
  pub last_error : Str

pub record Manager : Type 0 where
  pub threshold : ℕ
  pub notifiers : List Notifier
  pub states : Map DeviceState

-- What a run does to the outside: a call of a notifier, a line in the log for one that failed, and
-- the line of pollAllInto and pollAllOnce (cmd/whatunga/main.go) for a device whose poll failed.
pub data Effect : Type 0 where
  call : Notifier → Event → Effect
  log : Str → Str → Effect
  poll_failed : Str → Str → Effect

-- `if threshold < 1 { threshold = 1 }`
clamp : ℤ → ℕ
clamp (pos n) = if ltb n 1 then 1 else n
clamp (negsuc n) = 1

unfoldable pub new_manager : ℤ → List Notifier → Manager
unfolding clamp
new_manager threshold notifiers = record {
  threshold = clamp threshold;
  notifiers = notifiers;
  states = [];
}

-- The zero `deviceState`; 0 stands for the zero time.
abbrev pub blank : DeviceState
blank = record { status = unknown; consecutive_failures = 0; last_change = 0; last_error = [] }

abbrev pub is_down : Status → Bool
is_down down = true
is_down _ = false

-- The state behind the pointer that `stateFor` returns.
abbrev pub found_or_blank : Option DeviceState → DeviceState
found_or_blank none = blank
found_or_blank (some state) = state

-- A missing state is put into the map, as `stateFor` does, before it is changed.
unfoldable pub state_for : Manager → Str → Manager × DeviceState
state_for m device =
    let state = found_or_blank (lookup device m.states) in
    (record m { states = insert device state m.states }, state)

-- A write through the pointer.
unfoldable pub set_state : Manager → Str → DeviceState → Manager
set_state m device state = record m { states = insert device state m.states }

log_failure : Str → Option Str → List Effect → List Effect
log_failure device none rest = rest
log_failure device (some error) rest = log device error ∷ rest

unfoldable pub fire : List Notifier → Event → List Effect
unfolding log_failure
fire [] event = []
fire (n ∷ ns) event = call n event ∷ log_failure event.device (n.notify event) (fire ns event)

-- `now` is the first reading of the clock, and `fired` the one for the event.
unfoldable pub record_success : Manager → Str → Kind → Time → Time → Manager × List Effect
unfolding state_for set_state
record_success m device kind now fired =
    let (m', state) = state_for m device in
    let was_down = is_down state.status in
    let healthy = record state { consecutive_failures = 0; status = up; last_change = now } in
    let event : Event = record {
      device = device;
      kind = kind;
      status = up;
      message = [];
      time = fired;
    } in
    (set_state m' device healthy, if was_down then fire m.notifiers event else [])

unfoldable pub record_failure : Manager → Str → Kind → Str → Time → Time → Manager × List Effect
unfolding state_for set_state
record_failure m device kind error now fired =
    let (m', state) = state_for m device in
    let failures = state.consecutive_failures + 1 in
    let counted = record state { consecutive_failures = failures; last_error = error } in
    let should_notify = failures == m.threshold && not (is_down state.status) in
    let turned = record counted { status = down; last_change = now } in
    let event : Event = record {
      device = device;
      kind = kind;
      status = down;
      message = error;
      time = fired;
    } in
    (
      set_state m' device (if should_notify then turned else counted),
      if should_notify then fire m.notifiers event else [],
    )

status_or_unknown : Option DeviceState → Status × Time
status_or_unknown none = (unknown, 0)
status_or_unknown (some state) = (state.status, state.last_change)

-- The method `Status`.
unfoldable pub status_of : Manager → Str → Status × Time
unfolding status_or_unknown
status_of m device = status_or_unknown (lookup device m.states)
