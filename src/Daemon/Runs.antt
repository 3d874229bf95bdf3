-- ===== src/Daemon/Runs.antt =====
-- A run of `serve` against what its polls gave: what the history, the manager and the status page
-- then hold, in whatever order the rounds visited the devices.
use Prim.Native.Nat.{max}
use whatunga.Prelude.{
  ℕ, ◌≡◌, refl, ap, ◌∙◌, sym, not, ◌&&◌, List, [], ◌∷◌, ◌++◌, map, append-nil, append_assoc, Str,
  ◌⊎◌, inl, inr, is_nil, is_some, last?, take_last,
}
use whatunga.Prelude.Int.{ℤ, pos_part}
use whatunga.Prelude.Maps.{contains}
use whatunga.Monitor.{Time, Kind, Snapshot}
use whatunga.Store.{new_history, add, all, latest, devices}
use whatunga.Store.Refinement.{
  record_all, of_device, all-record_all, latest-record_all, devices-record_all,
}
use whatunga.Notify.Alerts.{calls, calls-append}
use whatunga.Notify.{Notifier, Effect, Manager, poll_failed, new_manager, status_of}
use whatunga.Notify.Streaks.{
  Outcome, success, failure, Poll, apply, report, run, expected_status, expected_change, rev_onto,
}
use whatunga.Notify.Streaks.Tracking.{status-run}
use whatunga.Webui.Page.{PublicDeviceStatus, status_rows}
use whatunga.Webui.Access.{contains-status_rows}
use whatunga.Daemon.{PollerEntry, Outside, Daemon, record_result, poll_all_into}

is_some-last? : (ss : List Snapshot) → (not (is_nil ss) && is_some (last? ss)) ≡ not (is_nil ss)
is_some-last? [] = refl
is_some-last? (s ∷ []) = refl
is_some-last? (s ∷ next ∷ ss) = is_some-last? (next ∷ ss)

-- One poll as it reached the program.
pub record Reading : Type 0 where
  pub device : Str
  pub kind : Kind
  pub result : Str ⊎ Snapshot
  pub times : Time × Time

abbrev outcome_of : Str ⊎ Snapshot → Outcome
outcome_of (inl error) = failure error
outcome_of (inr snap) = success

abbrev pub poll_of : Reading → Poll
poll_of r = record {
  device = r.device;
  kind = r.kind;
  outcome = outcome_of r.result;
  now = r.times.0;
  fired = r.times.1;
}

-- The snapshots among the readings.
abbrev with_snapshot : Str ⊎ Snapshot → List Snapshot → List Snapshot
with_snapshot (inl error) rest = rest
with_snapshot (inr snap) rest = snap ∷ rest

abbrev pub snapshots : List Reading → List Snapshot
snapshots [] = []
snapshots (r ∷ rs) = with_snapshot r.result (snapshots rs)

-- The line in the log of a failed poll, which stands before what the manager does.
abbrev with_line : Str → Str ⊎ Snapshot → List Effect → List Effect
with_line name (inl error) rest = poll_failed name error ∷ rest
with_line name (inr snap) rest = rest

-- What taking in the readings does to the outside.
abbrev pub effects_of : Manager → List Reading → List Effect
effects_of m [] = []
effects_of m (r ∷ rs) =
    let (m', effects) = report m (poll_of r) in
    with_line r.device r.result (effects ++ effects_of m' rs)

calls-with_line :
    (name : Str) (result : Str ⊎ Snapshot) (effects : List Effect)
    → calls (with_line name result effects) ≡ calls effects
unfolding calls
calls-with_line name (inl error) effects = refl
calls-with_line name (inr snap) effects = refl

pub calls-effects_of :
    (m : Manager) (rs : List Reading) → calls (effects_of m rs) ≡ calls (run m (map poll_of rs)).1
unfolding run
calls-effects_of m [] = refl
calls-effects_of m (r ∷ rs) =
    let (m', effects) = report m (poll_of r) in
    calls-with_line r.device r.result (effects ++ effects_of m' rs)
    ∙ calls-append effects (effects_of m' rs)
    ∙ ap (λ xs. calls effects ++ xs) (calls-effects_of m' rs)
    ∙ sym (calls-append effects (run m' (map poll_of rs)).1)

module _ {ℓ} {W : Type ℓ} (outside : Outside W) where
  -- What the devices answer, asked one after the other.
  abbrev pub readings : List (Str × PollerEntry W) → W → W × List Reading
  readings [] w = (w, [])
  readings ((name, entry) ∷ entries) w =
      let (w1, result) = entry.poller.snapshot w in
      let (w2, rest) = readings entries w1 in
      (
        w2,
        record { device = name; kind = entry.kind; result = result; times = outside.clock w1 }
            ∷ rest,
      )

  -- A daemon that has taken in some readings.
  abbrev pub after_readings : Daemon outside → W → List Reading → Daemon outside
  after_readings d w rs = record {
    world = w;
    history = record_all d.history (snapshots rs);
    manager = (run d.manager (map poll_of rs)).0;
    effects = d.effects ++ effects_of d.manager rs;
  }

  -- Taking in one more reading, before the others.
  after_readings-cons :
      (d : Daemon outside) (name : Str) (kind : Kind) (w1 w2 : W) (result : Str ⊎ Snapshot)
      (rest : List Reading)
      → after_readings (record_result outside d name kind w1 result) w2 rest
        ≡ after_readings d w2 (
            record { device = name; kind = kind; result = result; times = outside.clock w1 } ∷ rest)
  unfolding record_result run report apply
  after_readings-cons d name kind w1 w2 (inl error) rest =
      ap
        (λ (effects : List Effect). record {
          world = w2;
          history = record_all d.history (snapshots rest);
          manager =
              (run (record_result outside d name kind w1 (inl error)).manager (map poll_of rest)).0;
          effects = effects;
        })
        (append_assoc d.effects _ _)
  after_readings-cons d name kind w1 w2 (inr snap) rest =
      ap
        (λ (effects : List Effect). record {
          world = w2;
          history = record_all (add d.history snap) (snapshots rest);
          manager =
              (run (record_result outside d name kind w1 (inr snap)).manager (map poll_of rest)).0;
          effects = effects;
        })
        (append_assoc d.effects _ _)

  world-record_result :
      (d : Daemon outside) (name : Str) (kind : Kind) (w1 : W) (result : Str ⊎ Snapshot)
      → (record_result outside d name kind w1 result).world ≡ w1
  unfolding record_result
  world-record_result d name kind w1 (inl error) = refl
  world-record_result d name kind w1 (inr snap) = refl

  -- A round, or several, takes in what the devices answer, in that order: each failure counts in
  -- the manager, each snapshot is a success for the manager and an entry of the history.
  pub poll_all_into-readings :
      (entries : List (Str × PollerEntry W)) (d : Daemon outside)
      → poll_all_into outside entries d
        ≡ (let (w, rs) = readings entries d.world in after_readings d w rs)
  unfolding poll_all_into run
  poll_all_into-readings [] d =
      ap
        (λ (effects : List Effect). record {
          world = d.world;
          history = d.history;
          manager = d.manager;
          effects = effects;
        })
        (sym (append-nil d.effects))
  poll_all_into-readings ((name, entry) ∷ entries) d =
      let (w1, result) = entry.poller.snapshot d.world in
      let d' = record_result outside d name entry.kind w1 result in
      poll_all_into-readings entries d'
      ∙ ap (λ (w : W). let (w2, rest) = readings entries w in after_readings d' w2 rest)
          (world-record_result d name entry.kind w1 result)
      ∙ after_readings-cons d name entry.kind w1 (readings entries w1).0 result
          (readings entries w1).1

  -- A run of rounds from the start, for each device: the history has the last `capacity` of its
  -- snapshots, and the manager the status that its polls call for.
  pub poll_all_into-run :
      (capacity threshold : ℤ) (notifiers : List Notifier) (w : W)
      (entries : List (Str × PollerEntry W)) (device : Str)
      → let start : Daemon outside = record {
        world = w;
        history = new_history capacity;
        manager = new_manager threshold notifiers;
        effects = [];
      } in
        let end = poll_all_into outside entries start in
        let rs = (readings entries w).1 in
        let n : ℕ = max 1 (pos_part threshold) in
        let past = rev_onto (map poll_of rs) [] in
        (all end.history device
          ≡ take_last (max 1 (pos_part capacity)) (of_device device (snapshots rs)))
        × (status_of end.manager device
            ≡ (expected_status n device past, expected_change n device past))
  poll_all_into-run capacity threshold notifiers w entries device =
      let rs = (readings entries w).1 in
      let taken = poll_all_into-readings entries (record {
        world = w;
        history = new_history capacity;
        manager = new_manager threshold notifiers;
        effects = [];
      }) in
      (
        ap (λ (d : Daemon outside). all d.history device) taken
            ∙ all-record_all capacity (snapshots rs) device,
        ap (λ (d : Daemon outside). status_of d.manager device) taken
            ∙ status-run threshold notifiers (map poll_of rs) device,
      )

  -- After a run of rounds from the start, the public status page shows a device exactly where one
  -- of its polls has given a snapshot: one that has failed from the start on is not shown, also
  -- where its status is down.
  pub contains-status_rows-poll_all_into :
      (capacity threshold : ℤ) (notifiers : List Notifier) (w : W)
      (entries : List (Str × PollerEntry W)) (device : Str)
      → let start : Daemon outside = record {
        world = w;
        history = new_history capacity;
        manager = new_manager threshold notifiers;
        effects = [];
      } in
        let end = poll_all_into outside entries start in
        contains device (
          map
            (λ (p : PublicDeviceStatus). p.device)
            (status_rows end.history end.manager (devices end.history)))
        ≡ not (is_nil (of_device device (snapshots (readings entries w).1)))
  contains-status_rows-poll_all_into capacity threshold notifiers w entries device =
      let rs = (readings entries w).1 in
      let start : Daemon outside = record {
        world = w;
        history = new_history capacity;
        manager = new_manager threshold notifiers;
        effects = [];
      } in
      let end = poll_all_into outside entries start in
      let taken = poll_all_into-readings entries start in
      let named : contains device (devices end.history)
          ≡ not (is_nil (of_device device (snapshots rs))) =
        ap (λ (d : Daemon outside). contains device (devices d.history)) taken
        ∙ devices-record_all capacity (snapshots rs) device in
      let last : latest end.history device ≡ last? (of_device device (snapshots rs)) =
        ap (λ (d : Daemon outside). latest d.history device) taken
        ∙ latest-record_all capacity (snapshots rs) device in
      contains-status_rows end.history end.manager device (devices end.history)
      ∙ rw (named, last) (is_some-last? (of_device device (snapshots rs)))
