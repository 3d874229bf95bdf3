-- ===== src/Monitor/WindowsPoller.antt =====
-- internal/monitor/winrm_poller.go: the output of two PowerShell scripts. The WinRM client is an
-- argument.
pub mod Csv
pub mod Adapters
pub mod Fragile
use whatunga.Prelude.{
  ℕ, Bool, true, false, not, Option, none, some, List, [], ◌∷◌, ◌++◌, Str, codes, str_eq,
  if◌then◌else◌, is_nil, ◌⊎◌, inl, inr,
}
use whatunga.Prelude.Int.{ℤ, pos, eqb_ℤ}
use whatunga.Prelude.Atoi.{atoi}
use whatunga.Prelude.Split.{split, cut, split_n}
use whatunga.Prelude.Trim.{trim_space}
use whatunga.Monitor.{Time, SystemStatus, Interface, Snapshot, kind_windows_server}
use whatunga.Monitor.Fields.{atoi_or, atoi64_or, format_uptime}

-- The constants statusScript and interfacesScript.
pub data Script : Type 0 where
  status_script interfaces_script : Script

-- What RunWithString returns: an error, or the exit code, stdout and stderr.
pub data Run : Type 0 where
  not_run : Str → Run
  exited : ℤ → Str → Str → Run

-- The library: a client for a host, a port, whether by HTTPS, whether without verification, a user
-- and a password; and a run of a script, wrapped by its function Powershell.
pub record WinRm {ℓ} (W : Type ℓ) (C : Type 0) : Type ℓ where
  pub new_client : Str → ℤ → Bool → Bool → Str → Str → Option C
  pub run : C → Script → W → W × Run

pub data PollError : Type 0 where
  run_failed : Str → PollError
  script_exited : ℤ → Str → PollError
  unexpected_output : Str → PollError

pub record WindowsPoller (C : Type 0) : Type 0 where
  pub device : Str
  pub client : C

default_port : Str → Bool → Str × ℤ
default_port address use_https = if use_https then (address, pos 5986) else (address, pos 5985)

port_or_default : Str → Bool → Str → Option ℤ → Str × ℤ
port_or_default address use_https host none = default_port address use_https
port_or_default address use_https host (some port) = (host, port)

host_and_port : Str → Bool → Option (Str × Str) → Str × ℤ
host_and_port address use_https none = default_port address use_https
host_and_port address use_https (some (host, port)) =
    port_or_default address use_https host (atoi port)

unfoldable pub split_host_port : Str → Bool → Str × ℤ
unfolding host_and_port port_or_default default_port
split_host_port address use_https = host_and_port address use_https (cut b':' address)

unfoldable pub status_of_fields : Time → Str → List Str → PollError ⊎ SystemStatus
status_of_fields now out (cpu ∷ free ∷ total ∷ uptime ∷ version ∷ model ∷ []) = inr (record {
  uptime = format_uptime (atoi64_or uptime (pos 0));
  version = version;
  board_name = model;
  health = [];
  power_state = [];
  cpu_load = atoi_or cpu (pos 0);
  cpu_load_known = not (str_eq cpu []);
  free_memory_kb = atoi64_or free (pos 0);
  total_mem_kb = atoi64_or total (pos 0);
  checked_at = now;
})
status_of_fields now out _ = inl (unexpected_output out)

-- systemStatus, behind the run of the script.
unfoldable pub parse_status : Time → Str → PollError ⊎ SystemStatus
unfolding status_of_fields
parse_status now out = status_of_fields now out (split_n 6 b',' (trim_space out))

unfoldable pub interface_of_fields : List Str → Option Interface
interface_of_fields (name ∷ running ∷ rx ∷ tx ∷ []) = some (record {
  name = name;
  type = codes "ethernet";
  running = str_eq running (codes "True");
  disabled = false;
  rx_bytes = atoi64_or rx (pos 0);
  tx_bytes = atoi64_or tx (pos 0);
})
interface_of_fields _ = none

-- The body of the loop: what a line adds.
unfoldable pub interface_of_line : Str → Option Interface
unfolding interface_of_fields
interface_of_line line =
    let trimmed = trim_space line in
    if is_nil trimmed then none else interface_of_fields (split_n 4 b',' trimmed)

added : Option Interface → List Interface → List Interface
added none table = table
added (some i) table = i ∷ table

unfoldable pub interfaces_of_lines : List Str → List Interface
unfolding added
interfaces_of_lines [] = []
interfaces_of_lines (line ∷ lines) = added (interface_of_line line) (interfaces_of_lines lines)

-- interfaces, behind the run of the script.
unfoldable pub parse_interfaces : Str → List Interface
parse_interfaces out = interfaces_of_lines (split 10 (trim_space out))

module _ {ℓ} {W : Type ℓ} {C : Type 0} (win_rm : WinRm W C) where
  made : Str → Option C → Option (WindowsPoller C)
  made device_name none = none
  made device_name (some client) = some (record { device = device_name; client = client })

  unfoldable pub new_windows_poller : Str → Str → Str → Str → Bool → Bool → Option (WindowsPoller C)
  unfolding made
  new_windows_poller device_name address username password use_https insecure =
      let (host, port) = split_host_port address use_https in
      made device_name (win_rm.new_client host port use_https insecure username password)

  stdout_of : Run → PollError ⊎ Str
  stdout_of (not_run e) = inl (run_failed e)
  stdout_of (exited code stdout stderr) =
      if eqb_ℤ code (pos 0) then inr stdout else inl (script_exited code (trim_space stderr))

  unfoldable pub run_power_shell : C → Script → W → W × (PollError ⊎ Str)
  unfolding stdout_of
  run_power_shell c script w = let (w1, r) = win_rm.run c script w in (w1, stdout_of r)

  status_of_output : Time → W × (PollError ⊎ Str) → W × (PollError ⊎ SystemStatus)
  status_of_output now (w, inl e) = (w, inl e)
  status_of_output now (w, inr out) = (w, parse_status now out)

  unfoldable pub system_status : Time → WindowsPoller C → W → W × (PollError ⊎ SystemStatus)
  unfolding status_of_output
  system_status now p w = status_of_output now (run_power_shell p.client status_script w)

  interfaces_of_output : W × (PollError ⊎ Str) → W × (PollError ⊎ List Interface)
  interfaces_of_output (w, inl e) = (w, inl e)
  interfaces_of_output (w, inr out) = (w, inr (parse_interfaces out))

  unfoldable pub interfaces : WindowsPoller C → W → W × (PollError ⊎ List Interface)
  unfolding interfaces_of_output
  interfaces p w = interfaces_of_output (run_power_shell p.client interfaces_script w)

  with_table : Str → SystemStatus → W × (PollError ⊎ List Interface) → W × (PollError ⊎ Snapshot)
  with_table device system (w, inl e) = (w, inl e)
  with_table device system (w, inr table) = (
    w,
    inr (record {
      device = device;
      kind = kind_windows_server;
      system = system;
      interfaces = table;
    }),
  )

  with_status : WindowsPoller C → W × (PollError ⊎ SystemStatus) → W × (PollError ⊎ Snapshot)
  unfolding with_table
  with_status p (w, inl e) = (w, inl e)
  with_status p (w, inr system) = with_table p.device system (interfaces p w)

  unfoldable pub snapshot : Time → WindowsPoller C → W → W × (PollError ⊎ Snapshot)
  unfolding with_status
  snapshot now p w = with_status p (system_status now p w)
