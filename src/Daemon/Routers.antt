-- ===== src/Daemon/Routers.antt =====
-- A RouterOS poller of internal/monitor behind the interface that the rounds of `serve` use: from
-- the bytes of the connection to the answers of the API.
use Prim.Native.Nat.{max}
use whatunga.Prelude.{
  ◌≡◌, refl, ap, ◌∙◌, arith, if◌then◌else◌, List, [], ◌∷◌, ◌++◌, map, All, Str, str_eq_refl, codes,
  ◌⊎◌, inl, inr, is_nil, last?, take_last,
}
use whatunga.Prelude.Int.{ℤ, pos_part}
use whatunga.RouterOs.{Result, ok, err, stuck}
use whatunga.Monitor.{Time, Snapshot, kind_router_os}
use whatunga.Monitor.RouterOsPoller.{RouterOsPoller, Unexpected, snapshot, close_poller}
use whatunga.Monitor.RouterOsPoller.Polls.{
  Round, IsRound, times, answers, snapshot_of_rows, snapshot-answer, open_poller, resource_command,
  interface_command,
}
use whatunga.Store.{new_history}
use whatunga.Store.Refinement.{of_device}
use whatunga.Notify.{Notifier, new_manager}
use whatunga.Notify.Alerts.Quiet.{IsSuccess, expected_alerts-successes}
use whatunga.Notify.Alerts.{every, expected_alerts, calls}
use whatunga.Api.{no_data, latest_or_error, history_of, devices_path, serve}
use whatunga.Api.Routes.{IsEscapedPart}
use whatunga.Prelude.Paths.{unescape}
use whatunga.Daemon.{PollerEntry, Outside, Daemon, poll_all_into}
use whatunga.Daemon.Runs.{Reading, readings, poll_of, snapshots}
use whatunga.Daemon.Service.{serve-poll_all_into}

-- A poller and what the clock shows at its polls to come; or, behind a failed connection, whose
-- state the client's model does not keep, a state of its own.
pub data Link {ℓ} (V : Type ℓ) : Type ℓ where
  link : List Time → RouterOsPoller → Link V
  lost : V → Link V

-- The texts of errors, and the polls behind a failure of the connection: any at all.
pub record Behind {ℓ} (V : Type ℓ) : Type ℓ where
  pub text : Unexpected → Str
  pub failed : RouterOsPoller → V × Str
  pub later : V → V × (Str ⊎ Snapshot)
  pub hang_up : V → V

module _ {ℓ} {V : Type ℓ} (behind : Behind V) where
  fail : RouterOsPoller → Link V × (Str ⊎ Snapshot)
  fail p = let (v, error) = behind.failed p in (lost v, inl error)

  after_snapshot :
      List Time
      → RouterOsPoller
      → Result ((Unexpected ⊎ Snapshot) × RouterOsPoller)
      → Link V × (Str ⊎ Snapshot)
  unfolding fail
  after_snapshot ts p (ok (inl e, p')) = (link ts p', inl (behind.text e))
  after_snapshot ts p (ok (inr snap, p')) = (link ts p', inr snap)
  after_snapshot ts p (err e) = fail p
  after_snapshot ts p stuck = fail p

  -- Where no reading of the clock is given, nothing is said of the poll.
  unfoldable pub ask : Link V → Link V × (Str ⊎ Snapshot)
  unfolding after_snapshot fail
  ask (lost v) = let (v', result) = behind.later v in (lost v', result)
  ask (link [] p) = fail p
  ask (link (now ∷ ts) p) = after_snapshot ts p (snapshot now p)

  abbrev hang_up : Link V → Link V
  hang_up (link ts p) = link ts (close_poller p)
  hang_up (lost v) = lost (behind.hang_up v)

  abbrev pub router_entry : PollerEntry (Link V)
  router_entry = record {
    poller = record { snapshot = ask; close = hang_up };
    kind = kind_router_os;
  }

abbrev pub snapshot_in : Str → Round → Snapshot
snapshot_in name r = snapshot_of_rows name r.time r.resource (r.table_first ∷ r.table_rest)

-- A link to a router that will answer the commands of the rounds as it should.
abbrev pub answering {ℓ} : {V : Type ℓ} → Str → Str → List Round → Str → Link V
answering name sent rounds rest = link (times rounds) (open_poller name sent (answers rounds rest))

module _ {ℓ} {V : Type ℓ} (behind : Behind V) (name : Str) where
  abbrev pub visits : List Round → List (Str × PollerEntry (Link V))
  visits rounds = map (λ r. (name, router_entry behind)) rounds

  module _ (outside : Outside (Link V)) (rest : Str) where
    abbrev heard : Str → List Round → List Reading
    heard sent [] = []
    heard sent (r ∷ rounds) =
        let sent' = (sent ++ resource_command) ++ interface_command in
        record {
          device = name;
          kind = kind_router_os;
          result = inr (snapshot_in name r);
          times = outside.clock (answering name sent' rounds rest);
        }
        ∷ heard sent' rounds

    readings-visits :
        (rounds : List Round) (sent : Str)
        → All IsRound rounds
        → (readings outside (visits rounds) (answering name sent rounds rest)).1 ≡ heard sent rounds
    unfolding ask
    readings-visits [] sent h = refl
    readings-visits (r ∷ rounds) sent (h, hs) =
        let sent' = (sent ++ resource_command) ++ interface_command in
        rw
          (
            snapshot-answer name sent r.time r.resource [] (r.table_first ∷ r.table_rest)
                (answers rounds rest) (h.0, tt) h.1,
            readings-visits rounds sent' hs,
          )
          refl

    snapshots-heard :
        (rounds : List Round) (sent : Str)
        → of_device name (snapshots (heard sent rounds)) ≡ map (snapshot_in name) rounds
    snapshots-heard [] sent = refl
    snapshots-heard (r ∷ rounds) sent =
        rw (str_eq_refl name) (ap (◌∷◌ (snapshot_in name r)) (snapshots-heard rounds _))

    heard-IsSuccess :
        (rounds : List Round) (sent : Str) → All IsSuccess (map poll_of (heard sent rounds))
    heard-IsSuccess [] sent = tt
    heard-IsSuccess (r ∷ rounds) sent = (refl, heard-IsSuccess rounds _)

module _ {ℓ} {V : Type ℓ} (behind : Behind V) (raw : Str) (outside : Outside (Link V))
    (rest : Str) where
  -- From the bytes of the connection to the API: a daemon whose only device is a router, which
  -- answers in each round the command for the resources with a row and the one for the interfaces
  -- with a row or more, in words that are not empty and shorter than 2 ^ 32 bytes, answers the path
  -- of the device with the snapshot of the last round's rows, or before the first round with an
  -- error, and its path of the history with those of the last `capacity` rounds, or that error. No
  -- notifier is called. The name of the device is not empty and has no slash, and in the escaped
  -- form in which it stands in the path it is neither `.` nor `..`, which the mux cleans away.
  pub serve-visits :
      (capacity threshold : ℤ) (notifiers : List Notifier) (rounds : List Round)
      → IsEscapedPart raw
      → All IsRound rounds
      → let name = unescape raw in
        let start : Daemon outside = record {
          world = answering name [] rounds rest;
          history = new_history capacity;
          manager = new_manager threshold notifiers;
          effects = [];
        } in
        let end = poll_all_into outside (visits behind name rounds) start in
        let ss = map (snapshot_in name) rounds in
        let kept = take_last (max 1 (pos_part capacity)) ss in
        (serve end.history (devices_path ++ raw) ≡ latest_or_error name (last? ss))
        × (serve end.history (devices_path ++ (raw ++ codes "/history")) ≡ (
            if is_nil kept
            then no_data name
            else record { status = 200; body = history_of name kept }))
        × (calls end.effects ≡ [])
  serve-visits capacity threshold notifiers rounds part h =
      let name = unescape raw in
      let taken = readings-visits behind name outside rest rounds [] h in
      let (latest, history, called, status) =
        serve-poll_all_into outside capacity threshold notifiers (answering name [] rounds rest)
          (visits behind name rounds) raw part in
      let ss : of_device name (
            snapshots
              (readings outside (visits behind name rounds) (answering name [] rounds rest)).1)
          ≡ map (snapshot_in name) rounds =
        ap (λ (rs : List Reading). of_device name (snapshots rs)) taken
        ∙ snapshots-heard behind name outside rest rounds [] in
      let quiet =
        expected_alerts-successes (max 1 (pos_part threshold)) []
          (map poll_of (heard behind name outside rest [] rounds)) (omega arith) tt
          (heard-IsSuccess behind name outside rest rounds []) in
      (
        latest ∙ ap (λ (ss : List Snapshot). latest_or_error name (last? ss)) ss,
        history
            ∙ ap
                (λ (ss : List Snapshot).
                  if is_nil (take_last (max 1 (pos_part capacity)) ss)
                  then no_data name
                  else record {
                    status = 200;
                    body = history_of name (take_last (max 1 (pos_part capacity)) ss);
                  })
                ss,
        called
            ∙ ap
                (λ (rs : List Reading).
                  every notifiers
                    (expected_alerts (max 1 (pos_part threshold)) [] (map poll_of rs)))
                taken
            ∙ ap (every notifiers) quiet,
      )
