-- ===== src/Notify/Alerts/Quiet.antt =====
-- Polls that all succeed give no alert: RecordSuccess of internal/notify/notify.go.
use whatunga.Prelude.{ℕ, ◌≤◌, ◌≡◌, refl, ap, ◌∙◌, arith, List, [], ◌∷◌, ◌++◌, All, Str}
use whatunga.Notify.{Event}
use whatunga.Notify.Streaks.{Poll, success, streak, extend}
use whatunga.Notify.Alerts.{alert, expected_alerts}

abbrev pub IsSuccess : Poll → Type 0
IsSuccess p = p.outcome ≡ success

streak-successes : (d : Str) (past : List Poll) → All IsSuccess past → streak d past ≡ 0
unfolding streak extend
streak-successes d [] h = refl
streak-successes d (p ∷ past) (h, hs) = rw (h, streak-successes d past hs) (ground arith)

pub expected_alerts-successes :
    (n : ℕ) (past ps : List Poll)
    → 1 ≤ n
    → All IsSuccess past
    → All IsSuccess ps
    → expected_alerts n past ps ≡ []
unfolding expected_alerts alert
expected_alerts-successes n past [] pos h k = refl
expected_alerts-successes n past (p ∷ ps) pos h (k, ks) =
    let quiet : alert p.outcome n (streak p.device past) p ≡ [] =
      rw (k, streak-successes p.device past h) (ground arith) in
    ap (λ (es : List Event). es ++ expected_alerts n (p ∷ past) ps) quiet
    ∙ expected_alerts-successes n (p ∷ past) ps pos (k, h) ks
