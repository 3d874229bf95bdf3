-- ===== src/Notify/Streaks/Tracking.antt =====
-- The manager of internal/notify/manager.go against the polls that it was told of.
use Prim.Native.Nat.{max}
use whatunga.Prelude.{
  ℕ, ◌+◌, ◌∙◌, subst, ◌<◌, ◌≡◌, refl, ap, Bool, not, ◌||◌, ◌&&◌, arith, inl, inr,
}
use whatunga.Prelude.{some, List, [], ◌∷◌}
use whatunga.Prelude.{
  Str, str_eq, str_eq_iff, str_eq_refl, leb, ◌==◌, if◌then◌else◌, Bool-cases, Option-cases,
}
use mathlib.Core.Path.{ap₂}
use whatunga.Prelude.Int.{ℤ, pos_part}
use whatunga.Prelude.Maps.{lookup, lookup-insert}
use whatunga.Monitor.{Time}
use whatunga.Notify.{
  Status, unknown, up, down, DeviceState, Manager, Notifier, found_or_blank, is_down, new_manager,
  record_success, record_failure, status_of,
}
use whatunga.Notify.Streaks.{
  Outcome, Poll, apply, report, run, extend, succeeds, streak, ever_up, expected_status, stamp,
  expected_change, rev_onto, success, failure,
}

abbrev pub state_of : Manager → Str → DeviceState
state_of m d = found_or_blank (lookup d m.states)

-- The manager has counted what `past` says, for every device.
pub record Tracks (m : Manager) (past : List Poll) : Type 0 where
  pub counted : (d : Str) → (state_of m d).consecutive_failures ≡ streak d past
  pub judged : (d : Str) → (state_of m d).status ≡ expected_status m.threshold d past
  pub stamped : (d : Str) → (state_of m d).last_change ≡ expected_change m.threshold d past

apply_keeps :
    (o : Outcome) (m : Manager) (p : Poll)
    → ((apply o m p).0.threshold ≡ m.threshold) × ((apply o m p).0.notifiers ≡ m.notifiers)
unfolding apply record_success record_failure
apply_keeps success m p = (refl, refl)
apply_keeps (failure error) m p = (refl, refl)

pub report_keeps :
    (m : Manager) (p : Poll)
    → ((report m p).0.threshold ≡ m.threshold) × ((report m p).0.notifiers ≡ m.notifiers)
unfolding report
report_keeps m p = apply_keeps p.outcome m p

-- A device's state after a report on it.
pub next : Outcome → ℕ → DeviceState → Poll → DeviceState
next success threshold s p = record s { consecutive_failures = 0; status = up; last_change = p.now }
next (failure error) threshold s p =
    let counted = record s {
      consecutive_failures = s.consecutive_failures + 1;
      last_error = error;
    } in
    if s.consecutive_failures + 1 == threshold && not (is_down s.status)
    then record counted { status = down; last_change = p.now }
    else counted

lookup-apply :
    (o : Outcome) (m : Manager) (p : Poll) (d : Str)
    → lookup d (apply o m p).0.states ≡ (
        if str_eq p.device d
        then some (next o m.threshold (state_of m p.device) p)
        else lookup d m.states)
unfolding apply next record_success record_failure
lookup-apply success m p d = rw (lookup-insert, lookup-insert) (ground arith)
lookup-apply (failure error) m p d = rw (lookup-insert, lookup-insert) (ground arith)

-- A report changes the state of its own device, and of no other.
pub lookup-report :
    (m : Manager) (p : Poll) (d : Str)
    → lookup d (report m p).0.states ≡ (
        if str_eq p.device d
        then some (next p.outcome m.threshold (state_of m p.device) p)
        else lookup d m.states)
unfolding report
lookup-report m p d = lookup-apply p.outcome m p d

-- The two sides of `Tracks` at one device.
abbrev Agrees : ℕ → ℕ → Bool → Time → DeviceState → Type 0
Agrees threshold n ever t s =
    (s.consecutive_failures ≡ n)
    × (s.status ≡ (if leb threshold n then down else if ever then up else unknown))
    × (s.last_change ≡ t)

next-Agrees :
    (o : Outcome) (threshold n : ℕ) (ever : Bool) (t : Time) (s : DeviceState) (p : Poll)
    → 0 < threshold
    → Agrees threshold n ever t s
    → Agrees threshold
        (extend o n)
        (succeeds o || ever)
        (stamp o threshold n p.now t)
        (next o threshold s p)
unfolding next extend succeeds stamp
next-Agrees success threshold n ever t s p pos a = ground arith
next-Agrees (failure error) threshold n ever t s p pos a = ground arith

-- What the lookup says, of the state with the blank for a device that is not there yet.
state_of-report :
    (m : Manager) (p : Poll) (d : Str)
    → state_of (report m p).0 d ≡ (
        if str_eq p.device d
        then next p.outcome m.threshold (state_of m p.device) p
        else state_of m d)
state_of-report m p d = elim (Bool-cases (str_eq p.device d)) [
  | inl same ↦ rw (lookup-report, same)
  | inr other ↦ rw (lookup-report, other)
]

report-Agrees :
    (m : Manager) (past : List Poll) (p : Poll)
    → 0 < m.threshold
    → Tracks m past
    → (d : Str)
    → Agrees m.threshold
        (streak d (p ∷ past))
        (ever_up d (p ∷ past))
        (expected_change m.threshold d (p ∷ past))
        (state_of (report m p).0 d)
unfolding streak ever_up expected_status expected_change
report-Agrees m past p pos t d = elim (Bool-cases (str_eq p.device d)) [
  | inl same ↦
      let k = p.device in
      let n = m.threshold in
      let after = next p.outcome n (state_of m k) p in
      let own =
        next-Agrees p.outcome n (streak k past) (ever_up k past) (expected_change n k past)
          (state_of m k) p pos (t.counted k, t.judged k, t.stamped k) in
      rw (state_of-report, same)
        (subst
          (λ j.
            Agrees n (extend p.outcome (streak j past)) (succeeds p.outcome || ever_up j past)
              (stamp p.outcome n (streak j past) p.now (expected_change n j past)) after)
          ((str_eq_iff k d).0 same) own)
  | inr other ↦ rw (state_of-report, other) (t.counted d, t.judged d, t.stamped d)
]

pub report-Tracks :
    (m : Manager) (past : List Poll) (p : Poll)
    → 0 < m.threshold
    → Tracks m past
    → Tracks (report m p).0 (p ∷ past)
unfolding expected_status
report-Tracks m past p pos t = record {
  counted = λ d. (report-Agrees m past p pos t d).0;
  judged = λ d. rw ((report_keeps m p).0) (report-Agrees m past p pos t d).1;
  stamped = λ d. rw ((report_keeps m p).0) (report-Agrees m past p pos t d).2;
}

run-Tracks :
    (ps past : List Poll) (m : Manager)
    → 0 < m.threshold
    → Tracks m past
    → Tracks (run m ps).0 (rev_onto ps past)
unfolding run
run-Tracks [] past m pos t = t
run-Tracks (p ∷ ps) past m pos t =
    run-Tracks ps (p ∷ past) (report m p).0 (omega (arith, (report_keeps m p).0))
      (report-Tracks m past p pos t)

threshold-run : (ps : List Poll) (m : Manager) → (run m ps).0.threshold ≡ m.threshold
unfolding run
threshold-run [] m = refl
threshold-run (p ∷ ps) m = threshold-run ps (report m p).0 ∙ (report_keeps m p).0

pub threshold-new_manager :
    (t : ℤ) (ns : List Notifier) → (new_manager t ns).threshold ≡ max 1 (pos_part t)
unfolding new_manager
threshold-new_manager t ns = ground arith

pub new_manager-Tracks : (t : ℤ) (ns : List Notifier) → Tracks (new_manager t ns) []
unfolding expected_status expected_change streak ever_up
new_manager-Tracks t ns = record {
  counted = λ d. unfold new_manager lookup in refl;
  judged = λ d.
      let pos : 0 < (new_manager t ns).threshold = omega (arith, threshold-new_manager t ns) in
      unfold new_manager lookup in ground arith;
  stamped = λ d. unfold new_manager lookup in refl;
}

status-state_of :
    (m : Manager) (d : Str) → status_of m d ≡ ((state_of m d).status, (state_of m d).last_change)
unfolding status_of
status-state_of m d = elim (Option-cases (lookup d m.states)) [
  | inl missing ↦ rw missing
  | inr (s, found) ↦ rw found
]

-- After any reports to a new manager, in any interleaving of devices, `Status` answers for a device:
-- down exactly when at least `threshold` of its polls have failed since its last success, and else
-- up if one has succeeded, and else unknown; and with it the time of the latest success, or of the
-- failure that completed `threshold` in a row, whichever came later (the zero time if there is
-- neither). A threshold below 1 counts as 1.
pub status-run :
    (t : ℤ) (ns : List Notifier) (ps : List Poll) (d : Str)
    → let n : ℕ = max 1 (pos_part t) in
      let past = rev_onto ps [] in
      status_of (run (new_manager t ns) ps).0 d
      ≡ (expected_status n d past, expected_change n d past)
status-run t ns ps d =
    let m = new_manager t ns in
    let pos : 0 < m.threshold = omega (arith, threshold-new_manager t ns) in
    let tracked = run-Tracks ps [] m pos (new_manager-Tracks t ns) in
    let level = threshold-run ps m ∙ threshold-new_manager t ns in
    let past = rev_onto ps [] in
    status-state_of (run m ps).0 d
    ∙ ap₂ (λ (s : Status) (c : Time). (s, c)) (tracked.judged d) (tracked.stamped d)
    ∙ ap (λ (k : ℕ). (expected_status k d past, expected_change k d past)) level

-- A success stamps the device's status with the time of that poll also where the device was up
-- before, so the time that `Status` returns is then not that of a change.
pub status-report_up :
    (m : Manager) (p : Poll)
    → p.outcome ≡ success
    → (status_of m p.device).0 ≡ up
    → status_of (report m p).0 p.device ≡ (up, p.now)
unfolding next
status-report_up m p o h =
    status-state_of (report m p).0 p.device ∙ rw (state_of-report, str_eq_refl p.device, o)
