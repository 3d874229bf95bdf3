-- ===== src/Daemon/Service.antt =====
-- What a run of `serve` shows to its two audiences: the API answers of the history that the rounds
-- have filled, and the calls of notifiers.
use Prim.Native.Nat.{max}
use whatunga.Prelude.{
  ◌≡◌, ap, ◌∙◌, if◌then◌else◌, List, [], ◌++◌, map, Str, codes, is_nil, last?, take_last,
}
use whatunga.Prelude.Int.{ℤ, pos_part}
use whatunga.Store.{new_history}
use whatunga.Store.Refinement.{of_device}
use whatunga.Notify.{Notifier, new_manager, status_of}
use whatunga.Notify.Streaks.{expected_status, expected_change, rev_onto}
use whatunga.Notify.Alerts.{every, expected_alerts, calls, calls-run}
use whatunga.Prelude.Paths.{unescape}
use whatunga.Api.{Answer, no_data, latest_or_error, history_of, devices_path, serve}
use whatunga.Api.Routes.{IsEscapedPart, serve-record_all}
use whatunga.Daemon.{PollerEntry, Outside, Daemon, poll_all_into}
use whatunga.Daemon.Runs.{
  readings, poll_of, snapshots, poll_all_into-readings, calls-effects_of, poll_all_into-run,
}

module _ {ℓ} {W : Type ℓ} (outside : Outside W) where
  -- After a run of rounds from the start, the API's path of a device answers with the last snapshot
  -- that the polls gave for the device, or with the error that there is none, and its path of the
  -- history with the last `capacity` of them, or that error. The calls of notifiers are those for
  -- the alerts that the polls call for: at the failure that completes `threshold` failures of a
  -- device in a row, and at the first success after it, one for each notifier, in order. The status
  -- of the device is the one that its polls call for; with it goes the time of its latest success
  -- or of its latest failure that completed `threshold` in a row, whichever came later. The name of
  -- the device is not empty and has no slash, and in the escaped form in which it stands in the
  -- path it is neither `.` nor `..`, which the mux cleans away.
  pub serve-poll_all_into :
      (capacity threshold : ℤ) (notifiers : List Notifier) (w : W)
      (entries : List (Str × PollerEntry W)) (raw : Str)
      → IsEscapedPart raw
      → let device = unescape raw in
        let start : Daemon outside = record {
          world = w;
          history = new_history capacity;
          manager = new_manager threshold notifiers;
          effects = [];
        } in
        let end = poll_all_into outside entries start in
        let rs = (readings outside entries w).1 in
        let ss = of_device device (snapshots rs) in
        let kept = take_last (max 1 (pos_part capacity)) ss in
        (serve end.history (devices_path ++ raw) ≡ latest_or_error device (last? ss))
        × (serve end.history (devices_path ++ (raw ++ codes "/history")) ≡ (
            if is_nil kept
            then no_data device
            else record { status = 200; body = history_of device kept }))
        × (calls end.effects
            ≡ every notifiers (expected_alerts (max 1 (pos_part threshold)) [] (map poll_of rs)))
        × (status_of end.manager device ≡ (
            let n = max 1 (pos_part threshold) in
            let past = rev_onto (map poll_of rs) [] in
            (expected_status n device past, expected_change n device past)))
  serve-poll_all_into capacity threshold notifiers w entries raw part =
      let device = unescape raw in
      let rs = (readings outside entries w).1 in
      let taken = poll_all_into-readings outside entries (record {
        world = w;
        history = new_history capacity;
        manager = new_manager threshold notifiers;
        effects = [];
      }) in
      let answers = serve-record_all capacity (snapshots rs) raw part in
      let serving : Str → Daemon outside → Answer = λ path. λ d. serve d.history path in
      (
        ap (serving (devices_path ++ raw)) taken ∙ answers.0,
        ap (serving (devices_path ++ (raw ++ codes "/history"))) taken ∙ answers.1,
        ap (λ (d : Daemon outside). calls d.effects) taken
            ∙ calls-effects_of (new_manager threshold notifiers) rs
            ∙ calls-run threshold notifiers (map poll_of rs),
        (poll_all_into-run outside capacity threshold notifiers w entries device).1,
      )
