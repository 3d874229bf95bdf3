-- ===== src/Monitor.antt =====
-- internal/monitor/types.go: the shapes that every poller fills in.
pub mod Fields
pub mod RouterOsPoller
pub mod SnmpPoller
pub mod WindowsPoller
pub mod IloPoller
mod Examples
use whatunga.Prelude.{ℕ, Bool, List, Str, codes}
use whatunga.Prelude.Int.{ℤ}

-- A point in time, in nanoseconds.
abbrev pub Time : Type 0
Time = ℕ

-- `type Kind string`, and its constants.
abbrev pub Kind : Type 0
Kind = Str

abbrev pub kind_router_os : Kind
kind_router_os = codes "routeros"

abbrev pub kind_ilo : Kind
kind_ilo = codes "ilo"

abbrev pub kind_windows_server : Kind
kind_windows_server = codes "windows"

abbrev pub kind_snmp_firewall : Kind
kind_snmp_firewall = codes "snmp-firewall"

pub record SystemStatus : Type 0 where
  pub uptime : Str
  pub version : Str
  pub board_name : Str
  pub health : Str
  pub power_state : Str
  pub cpu_load : ℤ
  pub cpu_load_known : Bool
  pub free_memory_kb : ℤ
  pub total_mem_kb : ℤ
  pub checked_at : Time

pub record Interface : Type 0 where
  pub name : Str
  pub type : Str
  pub running : Bool
  pub disabled : Bool
  pub rx_bytes : ℤ
  pub tx_bytes : ℤ

pub record Snapshot : Type 0 where
  pub device : Str
  pub kind : Kind
  pub system : SystemStatus
  pub interfaces : List Interface
