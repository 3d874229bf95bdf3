-- ===== src/Store.antt =====
-- internal/store/history.go: a bounded history of snapshots for each device. The lock makes each
-- method one atomic step.
pub mod Invariant
pub mod Refinement
mod Examples
use whatunga.Prelude.{ℕ, ◌-◌, Bool, true, false, Option, none, some, List, [], ◌∷◌, ◌++◌}
use whatunga.Prelude.{Str, ltb, if◌then◌else◌, length, drop, last?}
use whatunga.Prelude.Int.{ℤ, pos, negsuc}
use whatunga.Prelude.Maps.{Map, lookup, insert, keys}
use whatunga.Monitor.{Snapshot}

pub record History : Type 0 where
  pub capacity : ℕ
  pub by_device : Map (List Snapshot)

-- `if capacity < 1 { capacity = 1 }`
clamp : ℤ → ℕ
clamp (pos n) = if ltb n 1 then 1 else n
clamp (negsuc n) = 1

unfoldable pub new_history : ℤ → History
unfolding clamp
new_history capacity = record { capacity = clamp capacity; by_device = [] }

-- Reading a missing key of a Go map of slices gives the empty slice.
entries_or_nil : Option (List Snapshot) → List Snapshot
entries_or_nil none = []
entries_or_nil (some entries) = entries

unfoldable pub entries_of : History → Str → List Snapshot
unfolding entries_or_nil
entries_of h device = entries_or_nil (lookup device h.by_device)

-- The body of the `if len(entries) > h.capacity`.
evict : ℕ → List Snapshot → List Snapshot
evict capacity entries =
    if ltb capacity (length entries) then drop (length entries - capacity) entries else entries

unfoldable pub add : History → Snapshot → History
unfolding entries_of evict
add h snap =
    let entries = entries_of h snap.device ++ snap ∷ [] in
    record h { by_device = insert snap.device (evict h.capacity entries) h.by_device }

-- The snapshot, or the false of `(monitor.Snapshot{}, false)`.
unfoldable pub latest : History → Str → Option Snapshot
unfolding entries_of
latest h device = last? (entries_of h device)

unfoldable pub all : History → Str → List Snapshot
unfolding entries_of
all h device = entries_of h device

unfoldable pub devices : History → List Str
devices h = keys h.by_device
