-- ===== src/Daemon/Examples.antt =====
-- A run with a router that answers and a firewall that does not, and the theorems at it.
use whatunga.Prelude.{
  ℕ, ◌+◌, ◌≡◌, refl, true, false, not, none, some, List, [], ◌∷◌, map, Str, codes, str_eq, inl, inr,
  is_nil, take_last, arith, ◌++◌, last?, if◌then◌else◌,
}
use whatunga.Prelude.Int.{pos}
use whatunga.Prelude.Maps.{contains, lookup}
use whatunga.Monitor.{Time, Snapshot, SystemStatus, kind_router_os, kind_snmp_firewall}
use whatunga.Store.{new_history, devices}
use whatunga.Store.Refinement.{of_device}
use whatunga.Notify.{new_manager, status_of}
use whatunga.Monitor.RouterOsPoller.Polls.{Round, IsRound}
use whatunga.Notify.Alerts.{every, expected_alerts, calls}
use whatunga.Prelude.Paths.{unescape}
use whatunga.Prelude.Paths.Clean.{IsKept-of}
use whatunga.Api.{no_data, latest_or_error, history_of, devices_path, serve}
use whatunga.Config.{Device, new_device}
use whatunga.Daemon.Pollers.{opened, entry_of, of_name, lookup-open_pollers}
use whatunga.Daemon.Service.{serve-poll_all_into}
use whatunga.Daemon.Routers.{Link, Behind, snapshot_in, answering, visits, serve-visits}
use whatunga.Notify.Streaks.{expected_status, expected_change, rev_onto}
use whatunga.Webui.Page.{PublicDeviceStatus, status_rows}
use whatunga.Daemon.{
  Poller, PollerEntry, Outside, Daemon, poll_all_into, open_pollers, new_poller_for, device_kind,
}
use whatunga.Daemon.Commands.{Watch, poll_all_once}
use whatunga.Daemon.Watch.{serving, poll_all_into-serving}
use whatunga.Daemon.Runs.{readings, poll_of, snapshots, contains-status_rows-poll_all_into}

abbrev healthy : SystemStatus
healthy = record {
  uptime = codes "1d";
  version = [];
  board_name = [];
  health = codes "OK";
  power_state = [];
  cpu_load = pos 3;
  cpu_load_known = true;
  free_memory_kb = pos 10;
  total_mem_kb = pos 20;
  checked_at = 0;
}

abbrev snap : Snapshot
snap = record { device = codes "r1"; kind = kind_router_os; system = healthy; interfaces = [] }

-- The world is a clock that each poll advances.
abbrev router : Poller ℕ
router = record { snapshot = λ w. (w + 1, inr snap); close = λ w. w }

abbrev firewall : Poller ℕ
firewall = record { snapshot = λ w. (w + 5, inl (codes "timeout")); close = λ w. w }

abbrev outside : Outside ℕ
outside = record {
  new_ilo_poller = λ d w. (w, none);
  new_windows_poller = λ d w. (w, none);
  new_snmp_firewall_poller = λ d w. (w, some firewall);
  new_router_os_poller = λ d w. (w, some router);
  clock = λ w. (w, w);
}

abbrev entries : List (Str × PollerEntry ℕ)
entries =
    (codes "r1", record { poller = router; kind = kind_router_os })
    ∷ (codes "fw", record { poller = firewall; kind = kind_snmp_firewall })
    ∷ (codes "fw", record { poller = firewall; kind = kind_snmp_firewall })
    ∷ []

abbrev start : Daemon outside
start = record {
  world = 0;
  history = new_history (pos 10);
  manager = new_manager (pos 2) [];
  effects = [];
}

abbrev end : Daemon outside
end = poll_all_into outside entries start

contains-status_rows-poll_all_into_example :
    contains (codes "fw") (
      map
        (λ (p : PublicDeviceStatus). p.device)
        (status_rows end.history end.manager (devices end.history)))
    ≡ not (is_nil (of_device (codes "fw") (snapshots (readings outside entries 0).1)))
contains-status_rows-poll_all_into_example =
    contains-status_rows-poll_all_into outside (pos 10) (pos 2) [] 0 entries (codes "fw")

-- The firewall is down, and the page does not show it.
hidden : not (is_nil (of_device (codes "fw") (snapshots (readings outside entries 0).1))) ≡ false
unfolding str_eq
hidden = refl

abbrev watch_start : Watch outside
watch_start = record { world = 0; manager = new_manager (pos 1) []; effects = []; printed = [] }

poll_all_into-serving_example :
    poll_all_into outside entries (serving outside (new_history (pos 2)) watch_start)
    ≡ serving outside (new_history (pos 2)) (poll_all_once outside entries watch_start)
poll_all_into-serving_example =
    poll_all_into-serving outside (new_history (pos 2)) entries watch_start

serve-poll_all_into_example :
    let rs = (readings outside entries 0).1 in
    let ss = of_device (codes "r1") (snapshots rs) in
    let kept = take_last 10 ss in
    (serve end.history (devices_path ++ codes "r1") ≡ latest_or_error (codes "r1") (last? ss))
    × (serve end.history (devices_path ++ (codes "r1" ++ codes "/history")) ≡ (
        if is_nil kept
        then no_data (codes "r1")
        else record { status = 200; body = history_of (codes "r1") kept }))
    × (calls end.effects ≡ every [] (expected_alerts 2 [] (map poll_of rs)))
    × (status_of end.manager (codes "r1") ≡ (
        let past = rev_onto (map poll_of rs) [] in
        (expected_status 2 (codes "r1") past, expected_change 2 (codes "r1") past)))
unfolding unescape str_eq
serve-poll_all_into_example =
    serve-poll_all_into outside (pos 10) (pos 2) [] 0 entries (codes "r1")
      (IsKept-of (codes "r1") refl refl, ((λ e. cc), (refl, (refl, tt))))

abbrev round_at : Time → Round
round_at now = record {
  time = now;
  resource = codes "=uptime=1d" ∷ codes "=cpu-load=7" ∷ [];
  table_first = codes "=name=ether1" ∷ [];
  table_rest = [];
}

round_at-IsRound : (now : Time) → IsRound (round_at now)
round_at-IsRound now =
    (((omega arith, λ e. cc), ((omega arith, λ e. cc), tt)), (((omega arith, λ e. cc), tt), tt))

abbrev texts : Behind ℕ
texts = record {
  text = λ e. codes "monitor: unexpected reply";
  failed = λ p. (0, codes "EOF");
  later = λ v. (v + 1, inl (codes "EOF"));
  hang_up = λ v. v;
}

abbrev link_clock : Outside (Link ℕ)
link_clock = record {
  new_ilo_poller = λ d w. (w, none);
  new_windows_poller = λ d w. (w, none);
  new_snmp_firewall_poller = λ d w. (w, none);
  new_router_os_poller = λ d w. (w, none);
  clock = λ w. (0, 0);
}

-- Two rounds, of which the history keeps one.
abbrev linked : Daemon link_clock
linked =
    poll_all_into link_clock (visits texts (codes "office") (round_at 1 ∷ round_at 2 ∷ []))
      (record {
        world = answering (codes "office") [] (round_at 1 ∷ round_at 2 ∷ []) [];
        history = new_history (pos 1);
        manager = new_manager (pos 3) [];
        effects = [];
      })

serve-visits_example :
    (serve linked.history (devices_path ++ codes "office")
      ≡ latest_or_error (codes "office") (some (snapshot_in (codes "office") (round_at 2))))
    × (serve linked.history (devices_path ++ (codes "office" ++ codes "/history")) ≡ record {
      status = 200;
      body = history_of (codes "office") (snapshot_in (codes "office") (round_at 2) ∷ []);
    })
    × (calls linked.effects ≡ [])
unfolding unescape str_eq
serve-visits_example =
    serve-visits texts (codes "office") link_clock [] (pos 1) (pos 3) []
      (round_at 1 ∷ round_at 2 ∷ [])
      (
        IsKept-of (codes "office") refl refl,
        ((λ e. cc), (refl, (refl, (refl, (refl, (refl, (refl, tt))))))),
      )
      (round_at-IsRound 1, (round_at-IsRound 2, tt))

-- Two devices of one name, of which the second gives the poller, and one of an unknown type.
abbrev named_twice : List Device
named_twice =
    new_device (codes "r1")
    ∷ record (new_device (codes "r1")) { type = kind_snmp_firewall }
    ∷ record (new_device (codes "r1")) { type = codes "printer" }
    ∷ []

lookup-open_pollers_example :
    ((open_pollers outside named_twice 0).0 ≡ (opened outside named_twice 0).0)
    × (lookup (codes "r1") (open_pollers outside named_twice 0).1
        ≡ last? (
            map (entry_of outside) (of_name outside (codes "r1") (opened outside named_twice 0).1)))
lookup-open_pollers_example = lookup-open_pollers outside (codes "r1") named_twice 0

-- The second of them.
opened_last :
    last? (map (entry_of outside) (of_name outside (codes "r1") (opened outside named_twice 0).1))
    ≡ some (record { poller = firewall; kind = kind_snmp_firewall })
unfolding new_poller_for device_kind str_eq
opened_last = refl
