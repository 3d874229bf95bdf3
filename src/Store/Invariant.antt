-- ===== src/Store/Invariant.antt =====
-- What holds of every history that the program builds.
use whatunga.Prelude.{ℕ, ◌≤◌, ◌<◌, ◌≡◌, refl, List, [], ◌∷◌, ◌++◌, arith, inl, inr, ◌-◌}
use whatunga.Prelude.{Str, length, ltb, ltb→lt, Bool-cases, Option-cases, All, All-append, All-drop}
use whatunga.Prelude.{length-append, length-drop}
use whatunga.Prelude.Int.{ℤ}
use whatunga.Prelude.Maps.{lookup, Distinct, insert-Distinct, Entries}
use whatunga.Prelude.Maps.{lookup-Entries, insert-Entries}
use whatunga.Monitor.{Snapshot}
use whatunga.Store.{History, new_history, entries_of, evict, add}

-- A device's slice: never empty, within the capacity, and only of that device's snapshots.
pub record IsSlice (capacity : ℕ) (device : Str) (entries : List Snapshot) : Type 0 where
  pub within : length entries ≤ capacity
  pub filled : 0 < length entries
  pub own : All (λ s. s.device ≡ device) entries

pub record IsValid (h : History) : Type 0 where
  pub capacity_pos : 0 < h.capacity
  pub distinct : Distinct h.by_device
  pub slices : Entries (IsSlice h.capacity) h.by_device

pub new_history-IsValid : (capacity : ℤ) → IsValid (new_history capacity)
unfolding new_history
new_history-IsValid capacity = ground arith

module _ {h : History} (v : IsValid h) where
  pub entries_of-within : (device : Str) → length (entries_of h device) ≤ h.capacity
  unfolding entries_of
  entries_of-within device = elim (Option-cases (lookup device h.by_device)) [
    | inl missing ↦ rw missing (omega arith)
    | inr (entries, found) ↦
        rw found
          (lookup-Entries (IsSlice h.capacity) device entries h.by_device v.slices found).within
  ]

  pub entries_of-own : (device : Str) → All (λ s. s.device ≡ device) (entries_of h device)
  unfolding entries_of
  entries_of-own device = elim (Option-cases (lookup device h.by_device)) [
    | inl missing ↦ rw missing tt
    | inr (entries, found) ↦
        rw found (lookup-Entries (IsSlice h.capacity) device entries h.by_device v.slices found).own
  ]

  evict-IsSlice :
      (device : Str) (entries : List Snapshot)
      → 0 < length entries
      → All (λ s. s.device ≡ device) entries
      → IsSlice h.capacity device (evict h.capacity entries)
  unfolding evict
  evict-IsSlice device entries filled own = elim (Bool-cases (ltb h.capacity (length entries))) [
    | inl over ↦
        let n = length entries - h.capacity in
        let kept = length-drop n entries in
        let more = ltb→lt h.capacity (length entries) over in
        let positive = v.capacity_pos in
        rw over (record {
          within = omega (arith, kept);
          filled = omega (arith, kept);
          own = All-drop (λ s. s.device ≡ device) n entries own;
        })
    | inr fits ↦ rw fits (record { within = ground arith; filled = filled; own = own })
  ]

  pub add-IsValid : (snap : Snapshot) → IsValid (add h snap)
  unfolding add
  add-IsValid snap =
      let entries = entries_of h snap.device ++ snap ∷ [] in
      let own =
        All-append (λ s. s.device ≡ snap.device) (entries_of h snap.device) (snap ∷ [])
          (entries_of-own snap.device) (refl, tt) in
      let filled : 0 < length entries =
        omega (arith, length-append (entries_of h snap.device) (snap ∷ [])) in
      record {
        capacity_pos = v.capacity_pos;
        distinct = insert-Distinct snap.device _ h.by_device v.distinct;
        slices =
            insert-Entries (IsSlice h.capacity) snap.device _ h.by_device
              (evict-IsSlice snap.device entries filled own) v.slices;
      }
