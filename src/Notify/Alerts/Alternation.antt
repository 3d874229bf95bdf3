-- ===== src/Notify/Alerts/Alternation.antt =====
-- How the alerts of one device follow each other, and that other devices do not change them.
use Prim.Native.Nat.{max}
use whatunga.Prelude.{
  ℕ, ◌<◌, ◌≡◌, refl, sym, ap, ◌∙◌, Bool, true, false, not, ◌&&◌, arith, inl, inr,
}
use whatunga.Prelude.{List, [], ◌∷◌, ◌++◌, map}
use whatunga.Prelude.{Str, str_eq, str_eq_iff, leb, Bool-cases, keep, keep-append}
use whatunga.Prelude.Int.{ℤ, pos_part}
use whatunga.Notify.{Status, unknown, up, down, Event, Notifier, Effect, is_down, new_manager}
use whatunga.Notify.Streaks.{Outcome, success, failure, Poll, run, streak, extend}
use whatunga.Notify.Alerts.{alert, expected_alerts, calls, every, calls-run}

-- The alerts of one device.
abbrev pub alerts_of : Str → List Event → List Event
alerts_of d = keep (λ e. str_eq e.device d)

-- The status is another than the one before: `b` tells whether that was down.
abbrev turns : Bool → Status → Bool
turns b down = not b
turns b up = b
turns b unknown = false

-- Each event is a change of the status, down and recovered in turn.
abbrev pub alternates : Bool → List Event → Bool
alternates b [] = true
alternates b (e ∷ es) = turns b e.status && alternates (is_down e.status) es

alert-alternates :
    (o : Outcome) (threshold n : ℕ) (p : Poll) (d : Str) (rest : List Event)
    → 0 < threshold
    → str_eq p.device d ≡ true
    → alternates (leb threshold (extend o n)) (alerts_of d rest) ≡ true
    → alternates (leb threshold n) (alerts_of d (alert o threshold n p ++ rest)) ≡ true
unfolding alert extend
alert-alternates success threshold n p d rest pos same h = ground arith
alert-alternates (failure error) threshold n p d rest pos same h = ground arith

alert_other :
    (o : Outcome) (threshold n : ℕ) (p : Poll) (d : Str)
    → str_eq p.device d ≡ false
    → alerts_of d (alert o threshold n p) ≡ []
unfolding alert
alert_other success threshold n p d other = ground arith
alert_other (failure error) threshold n p d other = ground arith

streak_same :
    (d : Str) (p : Poll) (past : List Poll)
    → str_eq p.device d ≡ true
    → streak d (p ∷ past) ≡ extend p.outcome (streak d past)
unfolding streak
streak_same d p past same = rw same

streak_other :
    (d : Str) (p : Poll) (past : List Poll)
    → str_eq p.device d ≡ false
    → streak d (p ∷ past) ≡ streak d past
unfolding streak
streak_other d p past other = rw other

alternates_from :
    (threshold : ℕ) (d : Str) (ps past : List Poll)
    → 0 < threshold
    → alternates (leb threshold (streak d past)) (alerts_of d (expected_alerts threshold past ps))
      ≡ true
unfolding expected_alerts
alternates_from threshold d [] past pos = refl
alternates_from threshold d (p ∷ ps) past pos =
    let rest = expected_alerts threshold (p ∷ past) ps in
    let later = alternates_from threshold d ps (p ∷ past) pos in
    elim (Bool-cases (str_eq p.device d)) [
      | inl same ↦
          let own : streak p.device past ≡ streak d past =
            ap (λ j. streak j past) ((str_eq_iff p.device d).0 same) in
          rw own (
            alert-alternates p.outcome threshold (streak d past) p d rest pos same
              (rw (streak_same d p past same) at later))
      | inr other ↦
          rw (keep-append, alert_other p.outcome threshold (streak p.device past) p d other)
            (rw (streak_other d p past other) at later)
    ]

alternates-expected_alerts :
    (t : ℤ) (d : Str) (ps : List Poll)
    → alternates false (alerts_of d (expected_alerts (max 1 (pos_part t)) [] ps)) ≡ true
alternates-expected_alerts t d ps =
    let n : ℕ = max 1 (pos_part t) in
    let pos : 0 < n = omega arith in
    let fresh : leb n (streak d []) ≡ false = (unfold streak in ground arith) in
    rw fresh at (alternates_from n d ps [] pos)

-- The polls of one device.
abbrev pub polls_of : Str → List Poll → List Poll
polls_of d = keep (λ p. str_eq p.device d)

streak-polls_of : (d : Str) (past : List Poll) → streak d (polls_of d past) ≡ streak d past
unfolding streak
streak-polls_of d [] = refl
streak-polls_of d (p ∷ past) = ground (arith, streak-polls_of d past)

alert_own :
    (o : Outcome) (threshold n : ℕ) (p : Poll) (d : Str)
    → str_eq p.device d ≡ true
    → alerts_of d (alert o threshold n p) ≡ alert o threshold n p
unfolding alert
alert_own success threshold n p d same = ground arith
alert_own (failure error) threshold n p d same = ground arith

alerts_of_from :
    (threshold : ℕ) (d : Str) (ps past : List Poll)
    → alerts_of d (expected_alerts threshold past ps)
      ≡ expected_alerts threshold (polls_of d past) (polls_of d ps)
unfolding expected_alerts
alerts_of_from threshold d [] past = refl
alerts_of_from threshold d (p ∷ ps) past =
    let later = alerts_of_from threshold d ps (p ∷ past) in
    elim (Bool-cases (str_eq p.device d)) [
      | inl same ↦
          let e = (str_eq_iff p.device d).0 same in
          let own : streak p.device past ≡ streak p.device (polls_of d past) =
            ap (λ j. streak j past) e
            ∙ sym (streak-polls_of d past)
            ∙ ap (λ j. streak j (polls_of d past)) (sym e) in
          rw (keep-append, alert_own p.outcome threshold (streak p.device past) p d same, same, own)
            (ap (◌++◌ (alert p.outcome threshold (streak p.device (polls_of d past)) p))
              (rw same at later))
      | inr other ↦
          rw (keep-append, alert_other p.outcome threshold (streak p.device past) p d other, other)
            (rw other at later)
    ]

alerts_of-expected_alerts :
    (t : ℤ) (d : Str) (ps : List Poll)
    → alerts_of d (expected_alerts (max 1 (pos_part t)) [] ps)
      ≡ expected_alerts (max 1 (pos_part t)) [] (polls_of d ps)
alerts_of-expected_alerts t d ps = alerts_of_from (max 1 (pos_part t)) d ps []

-- The events that a manager with one notifier hands to it.
abbrev pub events_of : List Effect → List Event
events_of effects = map (λ (c : Notifier × Event). c.1) (calls effects)

every_one-events :
    (n : Notifier) (es : List Event) → map (λ (c : Notifier × Event). c.1) (every (n ∷ []) es) ≡ es
every_one-events n [] = refl
every_one-events n (e ∷ es) = ap (◌∷◌ e) (every_one-events n es)

events_of-run :
    (t : ℤ) (n : Notifier) (ps : List Poll)
    → events_of (run (new_manager t (n ∷ [])) ps).1 ≡ expected_alerts (max 1 (pos_part t)) [] ps
events_of-run t n ps =
    ap (map (λ (c : Notifier × Event). c.1)) (calls-run t (n ∷ []) ps) ∙ every_one-events n _

-- The events that a new manager hands to its one notifier alternate for each device, down first: a
-- device that is down is not reported down again before it has been reported recovered, and no
-- recovery is reported but of a device that is down.
pub alternates-run :
    (t : ℤ) (n : Notifier) (ps : List Poll) (d : Str)
    → alternates false (alerts_of d (events_of (run (new_manager t (n ∷ [])) ps).1)) ≡ true
alternates-run t n ps d = rw (events_of-run t n ps) (alternates-expected_alerts t d ps)

-- The events of one device that a new manager hands to its one notifier are those of a manager that
-- is told of that device's polls alone: interleaving them with the polls of others changes nothing.
pub alerts_of-run :
    (t : ℤ) (n : Notifier) (ps : List Poll) (d : Str)
    → alerts_of d (events_of (run (new_manager t (n ∷ [])) ps).1)
      ≡ events_of (run (new_manager t (n ∷ [])) (polls_of d ps)).1
alerts_of-run t n ps d =
    rw (events_of-run t n ps, events_of-run t n (polls_of d ps)) (alerts_of-expected_alerts t d ps)
