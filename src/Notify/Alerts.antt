-- ===== src/Notify/Alerts.antt =====
-- The alerts that a run sends, against the streaks of failures.
pub mod Alternation
pub mod Quiet
use Prim.Native.Nat.{max}
use whatunga.Prelude.{
  ℕ, ◌+◌, ◌<◌, ◌≡◌, refl, sym, ap, ◌∙◌, Bool, true, false, not, ◌&&◌, arith, inl, inr,
}
use whatunga.Prelude.{none, some, Option, List, [], ◌∷◌, ◌++◌, map, append-nil, append_assoc}
use whatunga.Prelude.{
  Str, str_eq, str_eq_iff, leb, ◌==◌, if◌then◌else◌, Bool-cases, keep, keep-append,
}
use whatunga.Prelude.Int.{ℤ, pos_part}
use whatunga.Notify.{
  Status, unknown, up, down, Event, Notifier, Manager, Effect, call, log, poll_failed, is_down,
  new_manager, fire, log_failure, record_success, record_failure,
}
use whatunga.Notify.Streaks.{
  Outcome, success, failure, Poll, apply, report, run, streak, extend, expected_status,
}
use whatunga.Notify.Streaks.Tracking.{
  Tracks, report-Tracks, report_keeps, new_manager-Tracks, threshold-new_manager, state_of,
}

-- The alert for one poll, given the streak before it: down at the failure that completes
-- `threshold` in a row, recovered at the first success after as many.
alert : Outcome → ℕ → ℕ → Poll → List Event
alert success threshold n p =
    if leb threshold n
    then record { device = p.device; kind = p.kind; status = up; message = []; time = p.fired } ∷ []
    else []
alert (failure error) threshold n p =
    if n + 1 == threshold
    then record { device = p.device; kind = p.kind; status = down; message = error; time = p.fired }
      ∷ []
    else []

-- The alerts for the polls `ps` that come after `past`.
pub expected_alerts : ℕ → List Poll → List Poll → List Event
expected_alerts threshold past [] = []
expected_alerts threshold past (p ∷ ps) =
    alert p.outcome threshold (streak p.device past) p ++ expected_alerts threshold (p ∷ past) ps

-- The calls of notifiers among the effects.
unfoldable pub calls : List Effect → List (Notifier × Event)
calls [] = []
calls (call n e ∷ effects) = (n, e) ∷ calls effects
calls (log _ _ ∷ effects) = calls effects
calls (poll_failed _ _ ∷ effects) = calls effects

-- Each event to each notifier, in order.
abbrev pub every : List Notifier → List Event → List (Notifier × Event)
every ns [] = []
every ns (e ∷ es) = map (λ n. (n, e)) ns ++ every ns es

pub calls-append : (xs ys : List Effect) → calls (xs ++ ys) ≡ calls xs ++ calls ys
unfolding calls
calls-append [] ys = refl
calls-append (call n e ∷ xs) ys = ap (◌∷◌ (n, e)) (calls-append xs ys)
calls-append (log _ _ ∷ xs) ys = calls-append xs ys
calls-append (poll_failed _ _ ∷ xs) ys = calls-append xs ys

calls-log_failure :
    (d : Str) (error : Option Str) (rest : List Effect)
    → calls (log_failure d error rest) ≡ calls rest
unfolding calls log_failure
calls-log_failure d none rest = refl
calls-log_failure d (some error) rest = refl

-- One event reaches every configured notifier once, in order, whichever of them fail.
pub calls-fire : (ns : List Notifier) (e : Event) → calls (fire ns e) ≡ map (λ n. (n, e)) ns
unfolding calls fire
calls-fire [] e = refl
calls-fire (n ∷ ns) e =
    ap (◌∷◌ (n, e)) (calls-log_failure e.device (n.notify e) (fire ns e) ∙ calls-fire ns e)

every_one : (ns : List Notifier) (e : Event) → every ns (e ∷ []) ≡ calls (fire ns e)
every_one ns e = append-nil _ ∙ sym (calls-fire ns e)

every-append :
    (ns : List Notifier) (xs ys : List Event) → every ns (xs ++ ys) ≡ every ns xs ++ every ns ys
every-append ns [] ys = refl
every-append ns (e ∷ xs) ys =
    rw (every-append ns xs ys) (sym (append_assoc _ (every ns xs) (every ns ys)))

-- The manager holds a device down exactly when its streak has reached the threshold.
down_iff_streak :
    (m : Manager) (past : List Poll) (d : Str)
    → Tracks m past
    → is_down (state_of m d).status ≡ leb m.threshold (streak d past)
unfolding expected_status
down_iff_streak m past d t = rw (t.judged d) (ground arith)

calls_if :
    (ns : List Notifier) (e : Event) (b : Bool)
    → calls (if b then fire ns e else []) ≡ every ns (if b then e ∷ [] else [])
unfolding calls
calls_if ns e true = sym (every_one ns e)
calls_if ns e false = refl

calls-apply :
    (o : Outcome) (m : Manager) (past : List Poll) (p : Poll)
    → 0 < m.threshold
    → Tracks m past
    → calls (apply o m p).1 ≡ every m.notifiers (alert o m.threshold (streak p.device past) p)
unfolding apply alert record_success record_failure
calls-apply success m past p pos t =
    rw (down_iff_streak m past p.device t)
      (calls_if m.notifiers _ (leb m.threshold (streak p.device past)))
calls-apply (failure error) m past p pos t =
    let n = streak p.device past in
    let turned : (n + 1 == m.threshold && not (leb m.threshold n)) ≡ (n + 1 == m.threshold) =
      ground arith in
    rw (t.counted p.device, down_iff_streak m past p.device t, turned)
      (calls_if m.notifiers _ (n + 1 == m.threshold))

calls-report :
    (m : Manager) (past : List Poll) (p : Poll)
    → 0 < m.threshold
    → Tracks m past
    → calls (report m p).1
      ≡ every m.notifiers (alert p.outcome m.threshold (streak p.device past) p)
unfolding report
calls-report m past p pos t = calls-apply p.outcome m past p pos t

calls-run_from :
    (ps past : List Poll) (m : Manager)
    → 0 < m.threshold
    → Tracks m past
    → calls (run m ps).1 ≡ every m.notifiers (expected_alerts m.threshold past ps)
unfolding run expected_alerts
calls-run_from [] past m pos t = unfold calls in refl
calls-run_from (p ∷ ps) past m pos t =
    let (same_threshold, same_notifiers) = report_keeps m p in
    let later =
      calls-run_from ps (p ∷ past) (report m p).0 (omega (arith, same_threshold))
        (report-Tracks m past p pos t) in
    let rest = rw (same_threshold, same_notifiers) at later in
    calls-append (report m p).1 (run (report m p).0 ps).1
    ∙ ap (λ xs. xs ++ calls (run (report m p).0 ps).1) (calls-report m past p pos t)
    ∙ ap (λ xs. every m.notifiers (alert p.outcome m.threshold (streak p.device past) p) ++ xs) rest
    ∙ sym (every-append m.notifiers (alert p.outcome m.threshold (streak p.device past) p) _)

-- The calls of notifiers in a run of a new manager: for each failure that completes `threshold`
-- failures of a device in a row, one down event, for the first success after that one recovered
-- event, and no other, each given once to every notifier, in order, also where notifiers fail.
pub calls-run :
    (t : ℤ) (ns : List Notifier) (ps : List Poll)
    → calls (run (new_manager t ns) ps).1 ≡ every ns (expected_alerts (max 1 (pos_part t)) [] ps)
calls-run t ns ps =
    let m = new_manager t ns in
    let pos : 0 < m.threshold = omega (arith, threshold-new_manager t ns) in
    calls-run_from ps [] m pos (new_manager-Tracks t ns)
    ∙ ap (λ (n : ℕ). every m.notifiers (expected_alerts n [] ps)) (threshold-new_manager t ns)
    ∙ (unfold new_manager in refl)
