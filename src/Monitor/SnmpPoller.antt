-- ===== src/Monitor/SnmpPoller.antt =====
-- internal/monitor/snmp_poller.go: the status and the interface table of an SNMP agent.
pub mod Tables
use whatunga.Prelude.{
  ℕ, Bool, true, false, Option, none, some, List, [], ◌∷◌, ◌++◌, Str, codes, str_eq, has_prefix,
  length, drop, if◌then◌else◌, map,
}
use whatunga.Prelude.Int.{ℤ, pos, eqb_ℤ}
use whatunga.Prelude.Maps.{Map, lookup}
use whatunga.Snmp.{Error, Result}
use whatunga.Snmp.Message.{
  Value, int, counter, gauge, ticks, octets, oid, Outcome, done, failed, crashed, stuck,
}
use whatunga.Snmp.Walk.{Outside, Client, new_client, get, get_next, walk}
use whatunga.Monitor.{Time, SystemStatus, Interface, Snapshot, kind_snmp_firewall}
use whatunga.Monitor.Fields.{quotient, format_uptime}

abbrev pub oid_sys_descr : Str
oid_sys_descr = codes "1.3.6.1.2.1.1.1.0"

abbrev pub oid_sys_up_time : Str
oid_sys_up_time = codes "1.3.6.1.2.1.1.3.0"

abbrev pub oid_if_descr : Str
oid_if_descr = codes "1.3.6.1.2.1.2.2.1.2"

abbrev pub oid_if_oper_status : Str
oid_if_oper_status = codes "1.3.6.1.2.1.2.2.1.8"

abbrev pub oid_if_in_octets : Str
oid_if_in_octets = codes "1.3.6.1.2.1.2.2.1.10"

abbrev pub oid_if_out_octets : Str
oid_if_out_octets = codes "1.3.6.1.2.1.2.2.1.16"

pub record SnmpFirewallPoller : Type 0 where
  pub device : Str
  pub client : Client

unfoldable pub new_snmp_firewall_poller : Str → Str → Str → SnmpFirewallPoller
new_snmp_firewall_poller device_name address community = record {
  device = device_name;
  client = new_client address community;
}

-- The fields of a Value, and those of the zero Value for a missing key.
unfoldable pub value_int : Value → ℤ
value_int (int n) = n
value_int (counter n) = n
value_int (gauge n) = n
value_int (ticks n) = n
value_int _ = pos 0

unfoldable pub value_str : Value → Str
value_str (octets s) = s
value_str (oid s) = s
value_str _ = []

int_or_zero : Option Value → ℤ
int_or_zero none = pos 0
int_or_zero (some v) = value_int v

str_or_empty : Option Value → Str
str_or_empty none = []
str_or_empty (some v) = value_str v

unfoldable pub int_at : Map Value → Str → ℤ
unfolding int_or_zero
int_at m key = int_or_zero (lookup key m)

unfoldable pub str_at : Map Value → Str → Str
unfolding str_or_empty
str_at m key = str_or_empty (lookup key m)

unfoldable pub status_of_results : Time → Map Value → SystemStatus
status_of_results now results = record {
  uptime = format_uptime (quotient (int_at results oid_sys_up_time) 100);
  version = str_at results oid_sys_descr;
  board_name = [];
  health = [];
  power_state = [];
  cpu_load = pos 0;
  cpu_load_known = false;
  free_memory_kb = pos 0;
  total_mem_kb = pos 0;
  checked_at = now;
}

-- strings.TrimPrefix
unfoldable pub trim_prefix : Str → Str → Str
trim_prefix s p = if has_prefix s p then drop (length p) s else s

-- Both branches of the source return the suffix.
unfoldable pub if_table_index : Str → Str → Str
if_table_index name column_base = trim_prefix name (column_base ++ codes ".")

abbrev pub row_oid : Str → Str → Str
row_oid column_base index = column_base ++ codes "." ++ index

unfoldable pub interface_of_entry : Map Value → Map Value → Map Value → Str × Value → Interface
interface_of_entry statuses in_octets out_octets (entry_oid, name) =
    let index = if_table_index entry_oid oid_if_descr in
    record {
      name = value_str name;
      type = codes "ethernet";
      running = eqb_ℤ (int_at statuses (row_oid oid_if_oper_status index)) (pos 1);
      disabled = false;
      rx_bytes = int_at in_octets (row_oid oid_if_in_octets index);
      tx_bytes = int_at out_octets (row_oid oid_if_out_octets index);
    }

-- The loop over the names, whose list is in the order in which the range visits the map.
unfoldable pub interface_table : Map Value → Map Value → Map Value → Map Value → List Interface
interface_table names statuses in_octets out_octets =
    map (interface_of_entry statuses in_octets out_octets) names

-- A result or an error; a panic, and a walk whose rounds are used up.
pub data Answer (A : Type 0) : Type 0 where
  answered : A → Answer A
  refused : Error → Answer A
  panicked unfinished : Answer A

module _ {ℓ} {W : Type ℓ} where
  abbrev pub with_results :
      {A : Type 0} → W × Outcome → (Map Value → W → W × Answer A) → W × Answer A
  with_results (w, done results) next = next results w
  with_results (w, failed results e) next = (w, refused e)
  with_results (w, crashed) next = (w, panicked)
  with_results (w, stuck) next = (w, unfinished)

  abbrev pub with_answer : {A B : Type 0} → W × Answer A → (A → W → W × Answer B) → W × Answer B
  with_answer (w, answered a) next = next a w
  with_answer (w, refused e) next = (w, refused e)
  with_answer (w, panicked) next = (w, panicked)
  with_answer (w, unfinished) next = (w, unfinished)

-- The table of any agent: `next` is GetNext, which the poller below puts in. A range over a map
-- visits its entries in an order that Go leaves open: `range` gives the entries in that order.
module _ {ℓ} {W : Type ℓ} (next : Str → W → W × Result (Str × Value))
    (range : W → Map Value → Map Value) (rounds : ℕ) where
  unfoldable pub walk_column : Str → W → W × Outcome
  walk_column base w = walk next rounds base w

  unfoldable pub interfaces : W → W × Answer (List Interface)
  interfaces w = with_results (walk_column oid_if_descr w) (λ names w1.
      with_results (walk_column oid_if_oper_status w1) (λ statuses w2.
        with_results (walk_column oid_if_in_octets w2) (λ in_octets w3.
          with_results (walk_column oid_if_out_octets w3) (λ out_octets w4.
            (w4, answered (interface_table (range w4 names) statuses in_octets out_octets))))))

module _ {ℓ} {W : Type ℓ} (outside : Outside W) (range : W → Map Value → Map Value)
    (p : SnmpFirewallPoller) where
  unfoldable pub system_status : Time → W → W × Answer SystemStatus
  system_status now w =
      with_results (get outside p.client (oid_sys_descr ∷ oid_sys_up_time ∷ []) w)
        (λ results w1. (w1, answered (status_of_results now results)))

  -- A walk takes 10001 rounds at most, unless the agent repeats itself.
  unfoldable pub snapshot : ℕ → Time → W → W × Answer Snapshot
  snapshot rounds now w = with_answer (system_status now w) (λ system w1.
      with_answer (interfaces (get_next outside p.client) range rounds w1) (λ table w2. (
        w2,
        answered (record {
          device = p.device;
          kind = kind_snmp_firewall;
          system = system;
          interfaces = table;
        }),
      )))
