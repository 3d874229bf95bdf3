-- ===== src/Notify/Streaks.antt =====
-- What the manager of internal/notify/manager.go has been told of, as a list of polls, and what
-- state of a device it calls for: the run of failures at the end of the device's polls.
pub mod Tracking
use Prim.Native.Nat.{max}
use whatunga.Prelude.{
  ℕ, ◌+◌, ◌∙◌, subst, ◌<◌, ◌≡◌, refl, ap, Bool, true, false, not, ◌||◌, ◌&&◌, arith, inl, inr,
}
use whatunga.Prelude.{some, List, [], ◌∷◌, ◌++◌}
use whatunga.Prelude.{
  Str, str_eq, str_eq_iff, str_eq_refl, leb, ◌==◌, if◌then◌else◌, Bool-cases, Option-cases,
}
use mathlib.Core.Path.{ap₂}
use whatunga.Prelude.Int.{ℤ, pos_part}
use whatunga.Prelude.Maps.{lookup, lookup-insert}
use whatunga.Monitor.{Kind, Time}
use whatunga.Notify.{
  Status, unknown, up, down, DeviceState, Manager, Effect, Notifier, found_or_blank, is_down,
  new_manager, record_success, record_failure, status_of,
}

pub data Outcome : Type 0 where
  success : Outcome
  failure : Str → Outcome

-- One report of a poll, with the two readings of the clock that it takes.
pub record Poll : Type 0 where
  pub device : Str
  pub kind : Kind
  pub outcome : Outcome
  pub now : Time
  pub fired : Time

unfoldable pub apply : Outcome → Manager → Poll → Manager × List Effect
apply success m p = record_success m p.device p.kind p.now p.fired
apply (failure error) m p = record_failure m p.device p.kind error p.now p.fired

unfoldable pub report : Manager → Poll → Manager × List Effect
unfolding apply
report m p = apply p.outcome m p

unfoldable pub run : Manager → List Poll → Manager × List Effect
run m [] = (m, [])
run m (p ∷ ps) =
    let (m', effects) = report m p in let (m'', more) = run m' ps in (m'', effects ++ more)

unfoldable pub extend : Outcome → ℕ → ℕ
extend success n = 0
extend (failure error) n = n + 1

succeeds : Outcome → Bool
succeeds success = true
succeeds (failure error) = false

-- `past` lists the polls so far, the latest first. The device's failures since its last success:
unfoldable pub streak : Str → List Poll → ℕ
unfolding extend
streak d [] = 0
streak d (p ∷ past) = let n = streak d past in if str_eq p.device d then extend p.outcome n else n

-- The device has been polled with success.
unfoldable pub ever_up : Str → List Poll → Bool
unfolding succeeds
ever_up d [] = false
ever_up d (p ∷ past) = str_eq p.device d && succeeds p.outcome || ever_up d past

-- What the status should be: down after `threshold` failures in a row, and else up once the device
-- has answered.
unfoldable pub expected_status : ℕ → Str → List Poll → Status
expected_status threshold d past =
    if leb threshold (streak d past) then down else if ever_up d past then up else unknown

stamp : Outcome → ℕ → ℕ → Time → Time → Time
stamp success threshold n now before = now
stamp (failure error) threshold n now before = if n + 1 == threshold then now else before

-- The time that goes with it: the latest success, or the latest failure that completed `threshold`
-- in a row, whichever came later.
unfoldable pub expected_change : ℕ → Str → List Poll → Time
unfolding stamp
expected_change threshold d [] = 0
expected_change threshold d (p ∷ past) =
    let before = expected_change threshold d past in
    if str_eq p.device d then stamp p.outcome threshold (streak d past) p.now before else before

-- The polls of `ps`, the latest first, in front of `past`.
abbrev pub rev_onto : List Poll → List Poll → List Poll
rev_onto [] past = past
rev_onto (p ∷ ps) past = rev_onto ps (p ∷ past)
