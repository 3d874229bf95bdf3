-- ===== src/Notify/Examples.antt =====
-- The manager on concrete polls, and the theorems at concrete inputs.
use Prim.Native.Nat.{max}
use whatunga.Prelude.{ℕ, ◌≡◌, refl, true, false, List, [], ◌∷◌, some, none}
use whatunga.Prelude.{Str, codes, str_eq}
use whatunga.Prelude.Int.{pos, pos_part}
use whatunga.Prelude.Maps.{lookup, insert}
use whatunga.Monitor.{kind_router_os}
use whatunga.Prelude.{◌++◌, inr, has_prefix}
use whatunga.Prelude.Utf8.{utf8}
use whatunga.Prelude.Split.{free_of→Without}
use whatunga.Notify.Senders
use whatunga.Notify.Senders.{email_body, format_message, remove_all, remove_from}
use whatunga.Notify.Senders.Mail.{IsUntagged, plain_text, email_body_lem}
use whatunga.Notify.{
  unknown, up, down, Event, Notifier, new_manager, status_of, record_success, record_failure,
}
use whatunga.Notify.Streaks.{
  Outcome, success, failure, Poll, report, run, expected_status, expected_change, rev_onto,
}
use whatunga.Notify.Streaks.Tracking.{status-run}
use whatunga.Notify.Alerts.{calls, every, expected_alerts, calls-run}
use whatunga.Notify.Alerts.Alternation.{alternates, alerts_of, events_of, alternates-run}

abbrev working : Notifier
working = record { notify = λ e. none }

abbrev broken : Notifier
broken = record { notify = λ e. some (codes "unreachable") }

abbrev poll : Str → Outcome → ℕ → Poll
poll d o t = record { device = d; kind = kind_router_os; outcome = o; now = t; fired = t }

abbrev bad : Outcome
bad = failure (codes "timeout")

-- Device a fails three times and recovers; device b answers in between.
abbrev polls : List Poll
polls =
    poll (codes "a") bad 1
    ∷ poll (codes "b") success 2
    ∷ poll (codes "a") bad 3
    ∷ poll (codes "a") bad 4
    ∷ poll (codes "a") success 5
    ∷ []

status_of_a : status_of (run (new_manager (pos 2) []) polls).0 (codes "a") ≡ (up, 5)
unfolding new_manager run report record_success record_failure status_of lookup insert str_eq
status_of_a = refl

statuses_of_a :
    status_of (run (new_manager (pos 2) []) (poll (codes "a") bad 1 ∷ [])).0 (codes "a")
    ≡ (unknown, 0)
unfolding new_manager run report record_success record_failure status_of lookup insert str_eq
statuses_of_a = refl

status-run_example : status_of (run (new_manager (pos 2) []) polls).0 (codes "a") ≡ (
  expected_status (max 1 (pos_part (pos 2))) (codes "a") (rev_onto polls []),
  expected_change (max 1 (pos_part (pos 2))) (codes "a") (rev_onto polls []),
)
status-run_example = status-run (pos 2) [] polls (codes "a")

after_polls_up : (status_of (run (new_manager (pos 2) []) polls).0 (codes "a")).0 ≡ up
unfolding new_manager run report record_success record_failure status_of lookup insert str_eq
after_polls_up = refl

calls-run_example :
    calls (run (new_manager (pos 2) (broken ∷ working ∷ [])) polls).1
    ≡ every (broken ∷ working ∷ []) (expected_alerts (max 1 (pos_part (pos 2))) [] polls)
calls-run_example = calls-run (pos 2) (broken ∷ working ∷ []) polls

alternates-run_example :
    alternates false
      (alerts_of (codes "a") (events_of (run (new_manager (pos 2) (broken ∷ [])) polls).1))
    ≡ true
alternates-run_example = alternates-run (pos 2) broken polls (codes "a")

abbrev services : Senders.Outside
services = record {
  post_form = λ url form. inr 200;
  post = λ url type body. inr 200;
  send_mail = λ server auth from to message. none;
  marshal = λ payload. inr [];
  format_time = λ t. codes "2026-01-02 03:04:05 UTC";
  format_rfc3339 = λ t. codes "2026-01-02T03:04:05Z";
}

abbrev alert : Event
alert = record {
  device = codes "edge";
  kind = kind_router_os;
  status = down;
  message = codes "timeout";
  time = 7;
}

alert-IsUntagged : IsUntagged services alert
alert-IsUntagged = record {
  device_plain = free_of→Without b'<' alert.device refl;
  kind_plain = free_of→Without b'<' alert.kind refl;
  message_plain = free_of→Without b'<' alert.message refl;
  time_plain = free_of→Without b'<' (codes "2026-01-02 03:04:05 UTC") refl;
}

email_body_lem_example : email_body services alert ≡ plain_text services alert down
email_body_lem_example = email_body_lem services alert alert-IsUntagged

alert_text :
    email_body services alert
    ≡ utf8 "🔴 edge (routeros) is DOWN"
      ++ 10 ∷ (codes "timeout" ++ 10 ∷ codes "Since: 2026-01-02 03:04:05 UTC")
unfolding email_body format_message remove_all remove_from has_prefix
alert_text = refl
