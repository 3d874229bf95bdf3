-- ===== src/Daemon/Watch.antt =====
-- The command watch alerts as serve does.
use whatunga.Prelude.{◌≡◌, refl, sym, ap, ◌∙◌, List, [], ◌∷◌, ◌++◌, Str, ◌⊎◌, inl, inr}
use whatunga.Monitor.{Kind, Snapshot}
use whatunga.Store.{History, add}
use whatunga.Notify.{record_success}
use whatunga.Daemon.{PollerEntry, Outside, Daemon, record_result, poll_all_into}
use whatunga.Daemon.Commands.{Watch, watch_result, poll_all_once}

-- A history with further snapshots.
add_all : History → List Snapshot → History
add_all h [] = h
add_all h (snap ∷ snaps) = add_all (add h snap) snaps

add_all-append_one :
    (h : History) (snaps : List Snapshot) (snap : Snapshot)
    → add_all h (snaps ++ snap ∷ []) ≡ add (add_all h snaps) snap
unfolding add_all
add_all-append_one h [] snap = refl
add_all-append_one h (s ∷ snaps) snap = add_all-append_one (add h s) snaps snap

module _ {ℓ} {W : Type ℓ} (outside : Outside W) where
  -- The run of serve that corresponds to one of watch: its history, from `h` on, has what watch has
  -- printed.
  pub serving : History → Watch outside → Daemon outside
  serving h s = record {
    world = s.world;
    history = add_all h s.printed;
    manager = s.manager;
    effects = s.effects;
  }

  record_result-serving :
      (h : History) (s : Watch outside) (name : Str) (kind : Kind) (w : W) (r : Str ⊎ Snapshot)
      → record_result outside (serving h s) name kind w r
        ≡ serving h (watch_result outside s name kind w r)
  unfolding record_result watch_result serving
  record_result-serving h s name kind w (inl error) = refl
  record_result-serving h s name kind w (inr snap) =
      let (now, fired) = outside.clock w in
      let (manager, effects) = record_success s.manager name kind now fired in
      ap
        (λ (history : History).
          let d : Daemon outside = record {
            world = w;
            history = history;
            manager = manager;
            effects = s.effects ++ effects;
          } in
          d)
        (sym (add_all-append_one h s.printed snap))

  -- From the same state, the same rounds of polls leave serve and watch with the same manager, the
  -- same world, and the same calls of notifiers and log lines of failed polls and failed notifiers,
  -- in the same order; serve's history has taken, in order, the snapshots that watch has printed.
  pub poll_all_into-serving :
      (h : History) (entries : List (Str × PollerEntry W)) (s : Watch outside)
      → poll_all_into outside entries (serving h s) ≡ serving h (poll_all_once outside entries s)
  unfolding poll_all_into poll_all_once serving
  poll_all_into-serving h [] s = refl
  poll_all_into-serving h ((name, entry) ∷ entries) s =
      let (w, result) = entry.poller.snapshot s.world in
      ap (poll_all_into outside entries) (record_result-serving h s name entry.kind w result)
      ∙ poll_all_into-serving h entries (watch_result outside s name entry.kind w result)
