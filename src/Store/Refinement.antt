-- ===== src/Store/Refinement.antt =====
-- The history against what was polled: after any sequence of snapshots the store holds, for each
-- device, the last `capacity` of that device's snapshots.
use Prim.Native.Nat.{max}
use whatunga.Prelude.{ℕ, ◌-◌, ◌<◌, ◌≡◌, refl, sym, ap, ◌∙◌, not, ◌||◌}
use whatunga.Prelude.{List, [], ◌∷◌, ◌++◌, append-nil, append_assoc, arith, inl, inr}
use whatunga.Prelude.{Str, str_eq, str_eq_iff, length, drop, last?, keep, keep-append}
use whatunga.Prelude.{if◌then◌else◌, ltb, Bool-cases, take_last, take_last-append_one}
use whatunga.Prelude.{last?-take_last, is_nil}
use whatunga.Prelude.Int.{ℤ, pos_part}
use whatunga.Prelude.Maps.{lookup, lookup-insert, contains, contains-keys, has_key}
use whatunga.Monitor.{Snapshot}
use whatunga.Store.{History, new_history, entries_of, evict, add, latest, all, devices}
use whatunga.Store.Invariant.{IsValid, new_history-IsValid, add-IsValid}

-- The poll results of a run, in order.
abbrev pub record_all : History → List Snapshot → History
record_all h [] = h
record_all h (s ∷ ss) = record_all (add h s) ss

-- The snapshots of one device.
abbrev pub of_device : Str → List Snapshot → List Snapshot
of_device device = keep (λ s. str_eq s.device device)

pub record_all-IsValid : (ss : List Snapshot) (h : History) → IsValid h → IsValid (record_all h ss)
record_all-IsValid [] h v = v
record_all-IsValid (s ∷ ss) h v = record_all-IsValid ss (add h s) (add-IsValid v s)

evict-take_last : (n : ℕ) (xs : List Snapshot) → evict n xs ≡ take_last n xs
unfolding evict
evict-take_last n xs = elim (Bool-cases (ltb n (length xs))) [
  | inl over ↦ rw over
  | inr fits ↦
      let e : length xs - n ≡ 0 = ground arith in rw fits (ap (λ (k : ℕ). drop k xs) (sym e))
]

entries_of-add :
    (h : History) (s : Snapshot) (d : Str)
    → entries_of (add h s) d ≡ (
        if str_eq s.device d
        then take_last h.capacity (entries_of h d ++ s ∷ [])
        else entries_of h d)
unfolding entries_of add
entries_of-add h s d = elim (Bool-cases (str_eq s.device d)) [
  | inl same ↦ rw (lookup-insert, same, evict-take_last, (str_eq_iff s.device d).0 same)
  | inr other ↦ rw (lookup-insert, other)
]

capacity-add : (h : History) (s : Snapshot) → (add h s).capacity ≡ h.capacity
unfolding add
capacity-add h s = refl

-- `h` holds for each device what `past` retains.
abbrev Retains : History → List Snapshot → Type 0
Retains h past = (d : Str) → entries_of h d ≡ take_last h.capacity (of_device d past)

add-Retains :
    (h : History) (past : List Snapshot) (s : Snapshot)
    → 0 < h.capacity
    → Retains h past
    → Retains (add h s) (past ++ s ∷ [])
add-Retains h past s pos r d = elim (Bool-cases (str_eq s.device d)) [
  | inl same ↦
      rw (entries_of-add, same, r d, capacity-add, keep-append, same)
        (take_last-append_one h.capacity (of_device d past) s pos)
  | inr other ↦ rw (entries_of-add, other, r d, capacity-add, keep-append, other, append-nil)
]

record_all-Retains :
    (ss past : List Snapshot) (h : History)
    → IsValid h
    → Retains h past
    → Retains (record_all h ss) (past ++ ss)
record_all-Retains [] past h v r = rw append-nil r
record_all-Retains (s ∷ ss) past h v r = rw (append_assoc past (s ∷ []) ss) at (
    record_all-Retains ss (past ++ s ∷ []) (add h s) (add-IsValid v s)
      (add-Retains h past s v.capacity_pos r))

capacity-record_all : (ss : List Snapshot) (h : History) → (record_all h ss).capacity ≡ h.capacity
capacity-record_all [] h = refl
capacity-record_all (s ∷ ss) h = capacity-record_all ss (add h s) ∙ capacity-add h s

capacity-new_history : (c : ℤ) → (new_history c).capacity ≡ max 1 (pos_part c)
unfolding new_history
capacity-new_history c = ground arith

new_history-Retains : (c : ℤ) → Retains (new_history c) []
unfolding new_history entries_of lookup
new_history-Retains c d = ground arith

-- After any sequence of snapshots, given to a new history in order, `All` returns for a device the
-- last `capacity` of that device's snapshots, oldest first; a capacity below 1 counts as 1.
pub all-record_all :
    (c : ℤ) (ss : List Snapshot) (d : Str)
    → all (record_all (new_history c) ss) d ≡ take_last (max 1 (pos_part c)) (of_device d ss)
unfolding all
all-record_all c ss d =
    record_all-Retains ss [] (new_history c) (new_history-IsValid c) (new_history-Retains c) d
    ∙ ap (λ (n : ℕ). take_last n (of_device d ss))
        (capacity-record_all ss (new_history c) ∙ capacity-new_history c)

-- After any sequence of snapshots, given to a new history in order, `Latest` returns for a device
-- the last of its snapshots, whatever the capacity, and reports no data exactly when it has none.
pub latest-record_all :
    (c : ℤ) (ss : List Snapshot) (d : Str)
    → latest (record_all (new_history c) ss) d ≡ last? (of_device d ss)
unfolding latest all
latest-record_all c ss d =
    ap last? (all-record_all c ss d)
    ∙ last?-take_last (max 1 (pos_part c)) (of_device d ss) (omega arith)

has_key-add :
    (h : History) (s : Snapshot) (d : Str)
    → has_key d (add h s).by_device ≡ (str_eq s.device d || has_key d h.by_device)
unfolding add
has_key-add h s d = elim (Bool-cases (str_eq s.device d)) [
  | inl same ↦ rw (lookup-insert, same)
  | inr other ↦ rw (lookup-insert, other)
]

has_key-record_all :
    (ss : List Snapshot) (h : History) (d : Str)
    → has_key d (record_all h ss).by_device
      ≡ (has_key d h.by_device || not (is_nil (of_device d ss)))
has_key-record_all [] h d = ground arith
has_key-record_all (s ∷ ss) h d =
    ground (arith, has_key-record_all ss (add h s) d, has_key-add h s d)

-- After any sequence of snapshots, given to a new history in order, `Devices` names a device
-- exactly when the sequence holds a snapshot of it.
pub devices-record_all :
    (c : ℤ) (ss : List Snapshot) (d : Str)
    → contains d (devices (record_all (new_history c) ss)) ≡ not (is_nil (of_device d ss))
unfolding devices
devices-record_all c ss d =
    contains-keys d (record_all (new_history c) ss).by_device
    ∙ has_key-record_all ss (new_history c) d
    ∙ (unfold new_history lookup in refl)

-- Every history that a sequence of snapshots builds from a new one has a positive capacity, one
-- entry for each device, and for each device at least one and at most `capacity` snapshots, all of
-- them that device's.
pub record_all-new_history-IsValid :
    (c : ℤ) (ss : List Snapshot) → IsValid (record_all (new_history c) ss)
record_all-new_history-IsValid c ss = record_all-IsValid ss (new_history c) (new_history-IsValid c)
