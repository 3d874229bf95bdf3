-- ===== src/Snmp/Walk/Subtree.antt =====
-- What a walk collects, whatever the agent sends.
use whatunga.Prelude.{ℕ, zero, suc, ◌≤◌, arith, ◌≡◌, inl, inr}
use whatunga.Prelude.{true, false, [], ◌∷◌, ◌++◌, Str, codes, ltb, length, has_prefix, Bool-cases}
use whatunga.Prelude.Maps.{Map, insert, Entries, insert-Entries}
use whatunga.Snmp.{Result, ok, err, panic}
use whatunga.Snmp.Message.{Value, Outcome, done, failed, crashed, stuck}
use whatunga.Snmp.Walk.{is_end_of_mib_view, leaves, max_entries, round, walk_from, walk}

-- An entry of the subtree under `base`, which does not mark the end of the agent's view.
abbrev pub InSubtree : Str → Str → Value → Type 0
InSubtree base oid value =
    (has_prefix oid (base ++ codes ".") ≡ true) × (is_end_of_mib_view value ≡ false)

-- Every entry of the map lies in the subtree, and there are `n` at most.
abbrev pub IsCollected : Str → ℕ → Map Value → Type 0
IsCollected base n m = Entries (InSubtree base) m × (length m ≤ n)

-- The map that a walk gives, also with an error, is collected from the subtree.
abbrev pub Collects : Str → Outcome → Type 0
Collects base (done m) = IsCollected base 10000 m
Collects base (failed m e) = IsCollected base 10001 m
Collects base crashed = Unit
Collects base stuck = Unit

pub leaves-InSubtree :
    (base oid : Str) (value : Value) → leaves base oid value ≡ false → InSubtree base oid value
unfolding leaves
leaves-InSubtree base oid value h = ground arith

pub length-insert : (k : Str) (v : Value) (m : Map Value) → length (insert k v m) ≤ suc (length m)
unfolding insert
length-insert k v [] = omega arith
length-insert k v ((j, w) ∷ m) = ground (arith, length-insert k v m)

module _ {ℓ} {W : Type ℓ} (next : Str → W → W × Result (Str × Value)) (base : Str) where
  round-Collects :
      (m : Map Value) (r : W × Result (Str × Value)) (go_on : Map Value → Str → W → W × Outcome)
      → IsCollected base 10000 m
      → ((more : Map Value) (oid : Str) (w : W)
          → IsCollected base 10000 more
          → Collects base (go_on more oid w).1)
      → Collects base (round next base m r go_on).1
  unfolding round
  round-Collects m (w, err e) go_on h step = (h.0, omega (arith, h.1))
  round-Collects m (w, panic) go_on h step = tt
  round-Collects m (w, ok (oid, value)) go_on h step = elim (Bool-cases (leaves base oid value)) [
    | inl outside ↦ rw outside h
    | inr inside ↦
        let more = insert oid value m in
        let kept =
          insert-Entries (InSubtree base) oid value m (leaves-InSubtree base oid value inside)
            h.0 in
        let size = length-insert oid value m in
        elim (Bool-cases (ltb max_entries (length more))) [
          | inl full ↦ rw (inside, full) (kept, omega (arith, size, h.1))
          | inr room ↦ rw (inside, room) (step more oid w (kept, ground arith))
        ]
  ]

  walk_from-Collects :
      (fuel : ℕ) (m : Map Value) (current : Str) (w : W)
      → IsCollected base 10000 m
      → Collects base (walk_from next fuel base m current w).1
  unfolding walk_from
  walk_from-Collects zero m current w h = tt
  walk_from-Collects (suc fuel) m current w h =
      round-Collects m (next current w) (walk_from next fuel base) h (walk_from-Collects fuel)

  -- Every entry that Walk returns, also with an error, has an OID under the base OID and is not
  -- the end-of-MIB-view mark; there are 10000 at most, and 10001 with an error.
  pub walk-Collects : (fuel : ℕ) (w : W) → Collects base (walk next fuel base w).1
  unfolding walk
  walk-Collects fuel w = walk_from-Collects fuel [] base w (tt, omega arith)
