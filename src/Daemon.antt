-- ===== src/Daemon.antt =====
-- cmd/whatunga/main.go: which poller a device gets, and the rounds of polls that feed the history
-- and the alerts.
pub mod Runs
pub mod Commands
pub mod Watch
pub mod Service
pub mod Routers
pub mod Pollers
mod Examples
use whatunga.Prelude.{
  ℕ, Bool, true, false, Option, none, some, List, [], ◌∷◌, ◌++◌, Str, codes, str_eq, if◌then◌else◌,
  ◌⊎◌, inl, inr,
}
use whatunga.Prelude.Maps.{Map, insert}
use whatunga.Config.{Device}
use whatunga.Monitor.{
  Time, Kind, Snapshot, kind_router_os, kind_ilo, kind_windows_server, kind_snmp_firewall,
}
use whatunga.Store.{History, add}
use whatunga.Notify.{Manager, Effect, poll_failed, record_success, record_failure}

-- A poller asks its device for a snapshot, which changes the world and may fail.
pub record Poller {ℓ} (W : Type ℓ) : Type ℓ where
  pub snapshot : W → W × (Str ⊎ Snapshot)
  pub close : W → W

pub record PollerEntry {ℓ} (W : Type ℓ) : Type ℓ where
  pub poller : Poller W
  pub kind : Kind

-- The constructors of internal/monitor, which may connect to the device and fail, and the two
-- readings of the clock that a report to the manager takes.
pub record Outside {ℓ} (W : Type ℓ) : Type ℓ where
  pub new_ilo_poller : Device → W → W × Option (Poller W)
  pub new_windows_poller : Device → W → W × Option (Poller W)
  pub new_snmp_firewall_poller : Device → W → W × Option (Poller W)
  pub new_router_os_poller : Device → W → W × Option (Poller W)
  pub clock : W → Time × Time

unfoldable pub device_kind : Str → Kind
device_kind type = if str_eq type [] then kind_router_os else type

module _ {ℓ} {W : Type ℓ} (outside : Outside W) where
  unfoldable pub new_poller_for : Device → W → W × Option (Poller W)
  new_poller_for d w =
      if str_eq d.type kind_ilo
      then outside.new_ilo_poller d w
      else if str_eq d.type kind_windows_server
      then outside.new_windows_poller d w
      else if str_eq d.type kind_snmp_firewall
      then outside.new_snmp_firewall_poller d w
      else if str_eq d.type kind_router_os
      then outside.new_router_os_poller d w
      else if str_eq d.type []
      then outside.new_router_os_poller d w
      else (w, none)

  with_poller : Device → Option (Poller W) → Map (PollerEntry W) → Map (PollerEntry W)
  with_poller d none pollers = pollers
  with_poller d (some poller) pollers =
      insert d.name (record { poller = poller; kind = device_kind d.type }) pollers

  unfoldable pub open_from : Map (PollerEntry W) → List Device → W → W × Map (PollerEntry W)
  unfolding with_poller
  open_from pollers [] w = (w, pollers)
  open_from pollers (d ∷ ds) w =
      let (w', poller) = new_poller_for d w in open_from (with_poller d poller pollers) ds w'

  unfoldable pub open_pollers : List Device → W → W × Map (PollerEntry W)
  open_pollers devices w = open_from [] devices w

  -- What a run of `serve` keeps and has done.
  pub record Daemon : Type ℓ where
    pub world : W
    pub history : History
    pub manager : Manager
    pub effects : List Effect

  unfoldable pub record_result : Daemon → Str → Kind → W → Str ⊎ Snapshot → Daemon
  record_result d name kind w (inl error) =
      let (now, fired) = outside.clock w in
      let (manager, effects) = record_failure d.manager name kind error now fired in
      record d {
        world = w;
        manager = manager;
        effects = d.effects ++ poll_failed name error ∷ effects;
      }
  record_result d name kind w (inr snap) =
      let (now, fired) = outside.clock w in
      let (manager, effects) = record_success d.manager name kind now fired in
      record d {
        world = w;
        history = add d.history snap;
        manager = manager;
        effects = d.effects ++ effects;
      }

  -- The entries in the order in which a range over the map visits them, which Go leaves open; the
  -- rounds of a run are one such list after the other.
  unfoldable pub poll_all_into : List (Str × PollerEntry W) → Daemon → Daemon
  poll_all_into [] d = d
  poll_all_into ((name, entry) ∷ entries) d =
      let (w, result) = entry.poller.snapshot d.world in
      poll_all_into entries (record_result d name entry.kind w result)
