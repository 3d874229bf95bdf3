-- ===== src/Monitor/Examples.antt =====
-- The pollers and their theorems at concrete answers.
use mathlib.Core.List.{Perm}
use mathlib.Core.List.Perm
use whatunga.Prelude.{
  ℕ, ◌+◌, ◌≡◌, refl, arith, true, false, Option, none, some, List, [], ◌∷◌, ◌++◌, map, All, Str,
  codes, str_eq, inl, inr,
}
use whatunga.Prelude.Int.{pos}
use whatunga.RouterOs
use whatunga.RouterOs.Client.{ReplyStatus}
use whatunga.RouterOs.Reply.{done_bytes, trap_bytes}
use whatunga.RouterOs.Sentence.{IsWord}
use whatunga.Prelude.Split.{free_of→Without}
use whatunga.Prelude.{has_prefix}
use whatunga.Prelude.Maps.{Map, lookup, insert}
use whatunga.Snmp.{Result, ok}
use whatunga.Snmp.Message.{Value, octets, int, counter, end_of_mib_view, done}
use whatunga.Monitor.SnmpPoller
use whatunga.Monitor.SnmpPoller.{
  answered, row_oid, walk_column, oid_if_descr, oid_if_oper_status, oid_if_in_octets,
  oid_if_out_octets,
}
use whatunga.Snmp.Walk.{walk, walk_from, round, leaves, is_end_of_mib_view}
use whatunga.Monitor.Fields.{atoi_or, format_uptime}
use whatunga.Monitor.SnmpPoller.Tables.{
  TableRow, interface_of, column, names_of, statuses_of, in_octets_of, out_octets_of,
  interfaces-column,
}
use whatunga.Monitor.WindowsPoller.{interface_of_line, parse_interfaces, parse_status}
use whatunga.Monitor.WindowsPoller.Csv.{Adapter, csv_line, interface_of_adapter}
use whatunga.Monitor.WindowsPoller.Adapters.{IsAdapter, csv, parse_interfaces-csv}
use whatunga.Monitor.WindowsPoller.Fragile.{
  status_line, parse_status-status_line, interface_of_line-comma,
}
use whatunga.Monitor.{Interface, Time}
use whatunga.Monitor.RouterOsPoller.{system_reply}
use whatunga.Monitor.RouterOsPoller
use whatunga.Monitor.RouterOsPoller.Polls.{
  Round, IsRound, answers, sent_in, open_poller, answer, resource_command, interface_command,
  snapshot_of_rows, snapshot-answer, polls, snapshot-trap-behind,
}

abbrev resource_row : List Str
resource_row = codes "=uptime=1d" ∷ codes "=cpu-load=7" ∷ []

abbrev ether1 : List Str
ether1 = codes "=name=ether1" ∷ codes "=running=true" ∷ codes "=rx-byte=123" ∷ []

resource_row-IsWord : All IsWord resource_row
resource_row-IsWord = ((omega arith, λ e. cc), ((omega arith, λ e. cc), tt))

ether1-IsWord : All IsWord ether1
ether1-IsWord = ((omega arith, λ e. cc), ((omega arith, λ e. cc), ((omega arith, λ e. cc), tt)))

abbrev two_answers : Str
two_answers = answer (resource_row ∷ []) (answer (ether1 ∷ []) [])

snapshot-answer_example :
    RouterOsPoller.snapshot 5 (open_poller (codes "office") [] two_answers)
    ≡ RouterOs.ok (
      inr (snapshot_of_rows (codes "office") 5 resource_row (ether1 ∷ [])),
      open_poller (codes "office") (([] ++ resource_command) ++ interface_command) [],
    )
snapshot-answer_example =
    snapshot-answer (codes "office") [] 5 resource_row [] (ether1 ∷ []) [] (resource_row-IsWord, tt)
      (ether1-IsWord, tt)

abbrev trap_row : List Str
trap_row = codes "=message=not ready" ∷ []

trap_row-IsWord : All IsWord trap_row
trap_row-IsWord = ((omega arith, λ e. cc), tt)

abbrev round_at : Time → Round
round_at now = record {
  time = now;
  resource = resource_row;
  table_first = trap_row;
  table_rest = resource_row ∷ [];
}

round_at-IsRound : (now : Time) → IsRound (round_at now)
round_at-IsRound now = (resource_row-IsWord, (trap_row-IsWord, (resource_row-IsWord, tt)))

snapshot-trap-behind_example :
    polls (1 ∷ 2 ∷ 3 ∷ 4 ∷ []) (
      open_poller (codes "office") [] (
        trap_bytes trap_row
        ++ (done_bytes ++ answer (resource_row ∷ []) (answers (round_at 3 ∷ round_at 4 ∷ []) []))))
    ≡ RouterOs.ok (
      inl (system_reply ReplyStatus.trap)
          ∷ inl (system_reply ReplyStatus.done)
          ∷ inr (snapshot_of_rows (codes "office") 3 resource_row (resource_row ∷ []))
          ∷ inr (snapshot_of_rows (codes "office") 4 trap_row (resource_row ∷ []))
          ∷ [],
      open_poller
          (codes "office")
          (sent_in (resource_command ++ resource_command) (round_at 3 ∷ round_at 4 ∷ []))
          (answer (trap_row ∷ resource_row ∷ []) []),
    )
snapshot-trap-behind_example =
    snapshot-trap-behind (codes "office") 1 2 trap_row resource_row (round_at 3 ∷ round_at 4 ∷ [])
      [] trap_row-IsWord resource_row-IsWord (round_at-IsRound 3, (round_at-IsRound 4, tt))

abbrev lan : TableRow
lan = record { index = codes "1"; name = codes "lan"; status = pos 1; rx = pos 10; tx = pos 20 }

-- An agent with one row, which answers each OID of the walks by the next.
abbrev links : Map (Str × Value)
links =
    (oid_if_descr, (row_oid oid_if_descr lan.index, octets lan.name))
    ∷ (row_oid oid_if_descr lan.index, (row_oid oid_if_oper_status lan.index, int lan.status))
    ∷ (oid_if_oper_status, (row_oid oid_if_oper_status lan.index, int lan.status))
    ∷ (row_oid oid_if_oper_status lan.index, (row_oid oid_if_in_octets lan.index, counter lan.rx))
    ∷ (oid_if_in_octets, (row_oid oid_if_in_octets lan.index, counter lan.rx))
    ∷ (row_oid oid_if_in_octets lan.index, (row_oid oid_if_out_octets lan.index, counter lan.tx))
    ∷ (oid_if_out_octets, (row_oid oid_if_out_octets lan.index, counter lan.tx))
    ∷ []

answer_of : Option (Str × Value) → Result (Str × Value)
answer_of none = ok (codes "1.3.7", end_of_mib_view)
answer_of (some entry) = ok entry

table_agent : Str → ℕ → ℕ × Result (Str × Value)
unfolding answer_of
table_agent name w = (w + 1, answer_of (lookup name links))

abbrev in_order : ℕ → Map Value → Map Value
in_order w m = m

walk_names : walk_column table_agent in_order 5 oid_if_descr 0 ≡ (2, done (names_of (lan ∷ [])))
unfolding walk_column table_agent walk walk_from round leaves is_end_of_mib_view has_prefix insert
    lookup str_eq column
walk_names = refl

walk_statuses :
    walk_column table_agent in_order 5 oid_if_oper_status 2 ≡ (4, done (statuses_of (lan ∷ [])))
unfolding walk_column table_agent walk walk_from round leaves is_end_of_mib_view has_prefix insert
    lookup str_eq column
walk_statuses = refl

walk_in_octets :
    walk_column table_agent in_order 5 oid_if_in_octets 4 ≡ (6, done (in_octets_of (lan ∷ [])))
unfolding walk_column table_agent walk walk_from round leaves is_end_of_mib_view has_prefix insert
    lookup str_eq column
walk_in_octets = refl

walk_out_octets :
    walk_column table_agent in_order 5 oid_if_out_octets 6 ≡ (8, done (out_octets_of (lan ∷ [])))
unfolding walk_column table_agent walk walk_from round leaves is_end_of_mib_view has_prefix insert
    lookup str_eq column
walk_out_octets = refl

interfaces-column_example :
    (table : List Interface) × (SnmpPoller.interfaces table_agent in_order 5 0
      ≡ (8, answered table))
    × Perm table (map interface_of (lan ∷ []))
interfaces-column_example =
    interfaces-column table_agent in_order 5 (lan ∷ []) 0 2 4 6 8 (λ w m. Perm.refl m) (tt, tt)
      walk_names walk_statuses walk_in_octets walk_out_octets

abbrev adapter : Adapter
adapter = record { name = codes "Ethernet 2"; up = true; rx = pos 1000; tx = pos 5 }

adapter-IsAdapter : IsAdapter adapter
adapter-IsAdapter = record {
  name_starts = refl;
  no_comma = free_of→Without b',' adapter.name refl;
  no_newline = free_of→Without 10 adapter.name refl;
  rx_int = omega arith;
  tx_int = omega arith;
}

parse_interfaces-csv_example :
    parse_interfaces (csv (adapter ∷ adapter ∷ []) ++ 13 ∷ 10 ∷ [])
    ≡ map interface_of_adapter (adapter ∷ adapter ∷ [])
parse_interfaces-csv_example =
    parse_interfaces-csv adapter (adapter ∷ []) (adapter-IsAdapter, (adapter-IsAdapter, tt))

interface_of_line-comma_example :
    interface_of_line (
      csv_line (record {
        name = codes "Ethernet" ++ b',' ∷ codes " backup";
        up = true;
        rx = pos 7;
        tx = pos 9;
      })
      ++ 13 ∷ [])
    ≡ some (record {
      name = codes "Ethernet";
      type = codes "ethernet";
      running = str_eq (codes " backup") (codes "True");
      disabled = false;
      rx_bytes = pos 0;
      tx_bytes = pos 0;
    })
interface_of_line-comma_example =
    interface_of_line-comma (codes "Ethernet") (codes " backup") true (pos 7) (pos 9) refl
      (free_of→Without b',' (codes "Ethernet") refl) (free_of→Without b',' (codes " backup") refl)

abbrev loaded : Str
loaded = codes "3.5"

parse_status-status_line_example :
    parse_status 4 (
      status_line loaded (codes "10.0.17763") (codes "ProLiant") (pos 100) (pos 200) (pos 61)
      ++ 13 ∷ 10 ∷ [])
    ≡ inr (record {
      uptime = format_uptime (pos 61);
      version = codes "10.0.17763";
      board_name = codes "ProLiant";
      health = [];
      power_state = [];
      cpu_load = atoi_or loaded (pos 0);
      cpu_load_known = true;
      free_memory_kb = pos 100;
      total_mem_kb = pos 200;
      checked_at = 4;
    })
parse_status-status_line_example =
    parse_status-status_line loaded (codes "10.0.17763") (codes "ProLiant") (pos 100) (pos 200)
      (pos 61) 4 refl (codes "ProLian", b't', refl, refl) (free_of→Without b',' loaded refl)
      (free_of→Without b',' (codes "10.0.17763") refl) (omega arith) (omega arith) (omega arith)
