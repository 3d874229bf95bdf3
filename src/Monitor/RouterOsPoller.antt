-- ===== src/Monitor/RouterOsPoller.antt =====
-- internal/monitor/routeros_poller.go: what a RouterOS device's replies become.
pub mod Polls
use whatunga.Prelude.{
  ℕ, Bool, true, false, not, Option, none, some, List, [], ◌∷◌, Str, codes, str_eq, map,
  if◌then◌else◌, ◌⊎◌, inl, inr,
}
use whatunga.Prelude.Int.{ℤ, pos}
use whatunga.Prelude.Maps.{Map, lookup}
use whatunga.RouterOs.{Result, ok, err, stuck, ◌>>=◌}
use whatunga.RouterOs.Client.{Client, Reply, ReplyStatus, is_done, run, dial, close}
use whatunga.Monitor.{Time, SystemStatus, Interface, Snapshot, kind_router_os}
use whatunga.Monitor.Fields.{atoi_or, atoi64_or, quotient}

pub record RouterOsPoller : Type 0 where
  pub device : Str
  pub client : Client

-- An answer that a poll cannot use. A failure of the connection is an error of the result instead,
-- behind which the connection's state is not kept.
pub data Unexpected : Type 0 where
  system_reply interface_reply : ReplyStatus → Unexpected

-- The bytes that the connection will deliver, or none where dialing fails.
unfoldable pub new_router_os_poller : Option Str → Str → Str → Str → Result RouterOsPoller
new_router_os_poller stream device_name username password = do
  c ← dial stream username password
  ok (record { device = device_name; client = c })

unfoldable pub close_poller : RouterOsPoller → RouterOsPoller
close_poller p = record p { client = close p.client }

value_or_empty : Option Str → Str
value_or_empty none = []
value_or_empty (some v) = v

-- row[key]
unfoldable pub field : Map Str → Str → Str
unfolding value_or_empty
field row key = value_or_empty (lookup key row)

unfoldable pub status_of_row : Time → Map Str → SystemStatus
status_of_row now row = record {
  uptime = field row (codes "uptime");
  version = field row (codes "version");
  board_name = field row (codes "board-name");
  health = [];
  power_state = [];
  cpu_load = atoi_or (field row (codes "cpu-load")) (pos 0);
  cpu_load_known = true;
  free_memory_kb = quotient (atoi64_or (field row (codes "free-memory")) (pos 0)) 1024;
  total_mem_kb = quotient (atoi64_or (field row (codes "total-memory")) (pos 0)) 1024;
  checked_at = now;
}

unfoldable pub interface_of_row : Map Str → Interface
interface_of_row row = record {
  name = field row (codes "name");
  type = field row (codes "type");
  running = str_eq (field row (codes "running")) (codes "true");
  disabled = str_eq (field row (codes "disabled")) (codes "true");
  rx_bytes = atoi64_or (field row (codes "rx-byte")) (pos 0);
  tx_bytes = atoi64_or (field row (codes "tx-byte")) (pos 0);
}

first_row : Time → ReplyStatus → List (Map Str) → Unexpected ⊎ SystemStatus
first_row now status [] = inl (system_reply status)
first_row now status (row ∷ rows) =
    if is_done status then inr (status_of_row now row) else inl (system_reply status)

unfoldable pub system_status :
    Time → RouterOsPoller → Result ((Unexpected ⊎ SystemStatus) × RouterOsPoller)
unfolding first_row
system_status now p = do
  (reply, c) ← run p.client (codes "/system/resource/print") []
  ok (first_row now reply.status reply.rows, record p { client = c })

unfoldable pub interfaces : RouterOsPoller → Result ((Unexpected ⊎ List Interface) × RouterOsPoller)
interfaces p = do
  (reply, c) ← run p.client (codes "/interface/print") []
  ok (
    if is_done reply.status
        then inr (map interface_of_row reply.rows)
        else inl (interface_reply reply.status),
    record p { client = c },
  )

abbrev snapshot_of : Str → SystemStatus → List Interface → Snapshot
snapshot_of device system table = record {
  device = device;
  kind = kind_router_os;
  system = system;
  interfaces = table;
}

with_interfaces :
    SystemStatus
    → (Unexpected ⊎ List Interface) × RouterOsPoller
    → Result ((Unexpected ⊎ Snapshot) × RouterOsPoller)
with_interfaces system (inl e, p) = ok (inl e, p)
with_interfaces system (inr table, p) = ok (inr (snapshot_of p.device system table), p)

with_system :
    (Unexpected ⊎ SystemStatus) × RouterOsPoller → Result ((Unexpected ⊎ Snapshot) × RouterOsPoller)
unfolding with_interfaces
with_system (inl e, p) = ok (inl e, p)
with_system (inr system, p) = interfaces p >>= with_interfaces system

unfoldable pub snapshot : Time → RouterOsPoller → Result ((Unexpected ⊎ Snapshot) × RouterOsPoller)
unfolding with_system
snapshot now p = system_status now p >>= with_system
