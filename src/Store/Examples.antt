-- ===== src/Store/Examples.antt =====
-- The history on concrete snapshots, and the theorems at concrete inputs.
use Prim.Native.Nat.{max}
use whatunga.Prelude.{ℕ, ◌≡◌, refl, false, List, [], ◌∷◌, none}
use whatunga.Prelude.{Str, codes, str_eq, take_last}
use whatunga.Prelude.Int.{pos, pos_part}
use whatunga.Prelude.Maps.{lookup, insert}
use whatunga.Monitor.{Snapshot, SystemStatus, kind_router_os}
use whatunga.Store.{new_history, add, all, latest}
use whatunga.Store.Refinement.{record_all, of_device, all-record_all}

abbrev blank : SystemStatus
blank = record {
  uptime = [];
  version = [];
  board_name = [];
  health = [];
  power_state = [];
  cpu_load = pos 0;
  cpu_load_known = false;
  free_memory_kb = pos 0;
  total_mem_kb = pos 0;
  checked_at = 0;
}

abbrev poll : Str → ℕ → Snapshot
poll d t = record {
  device = d;
  kind = kind_router_os;
  system = record blank { checked_at = t };
  interfaces = [];
}

abbrev polls : List Snapshot
polls = poll (codes "a") 1 ∷ poll (codes "b") 2 ∷ poll (codes "a") 3 ∷ poll (codes "a") 4 ∷ []

-- TestHistoryEvictsOldest's shape: two of three snapshots stay.
all_of_a :
    all (record_all (new_history (pos 2)) polls) (codes "a")
    ≡ poll (codes "a") 3 ∷ poll (codes "a") 4 ∷ []
unfolding new_history add all lookup insert str_eq
all_of_a = refl

missing : latest (record_all (new_history (pos 2)) polls) (codes "c") ≡ none
unfolding new_history add latest lookup insert str_eq
missing = refl

all-record_all_example :
    all (record_all (new_history (pos 2)) polls) (codes "a")
    ≡ take_last (max 1 (pos_part (pos 2))) (of_device (codes "a") polls)
all-record_all_example = all-record_all (pos 2) polls (codes "a")
