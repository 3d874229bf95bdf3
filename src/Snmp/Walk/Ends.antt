-- ===== src/Snmp/Walk/Ends.antt =====
-- When a walk ends: the agents on which it does, with what result, and one on which it does not.
use whatunga.Prelude.{ℕ, zero, suc, ◌+◌, ◌≤◌, arith, ◌≡◌, ◌≢◌, refl, ap, subst, ◌⊎◌, inl, inr}
use whatunga.Prelude.{
  true, false, List, [], ◌∷◌, ◌++◌, codes, has_prefix, Str, str_eq, str_eq_iff, str_eq_refl, ltb,
  length, Bool-cases,
}
use whatunga.Prelude.Maps.{Map, insert, Entries, insert-Entries}
use whatunga.Snmp.{Result, ok, err, panic}
use whatunga.Snmp.Message.{Value, end_of_mib_view, Outcome, done, stuck}
use whatunga.Snmp.Walk.{is_end_of_mib_view, leaves, max_entries, round, walk_from, walk}
use whatunga.Snmp.Walk.Subtree.{InSubtree, leaves-InSubtree, length-insert}

pub leaves-eq-false :
    (base oid : Str) (value : Value) → InSubtree base oid value → leaves base oid value ≡ false
unfolding leaves
leaves-eq-false base oid value h = ground arith

-- An answer that is not an entry of the subtree: the end-of-MIB-view mark, or one outside it.
abbrev pub IsBeyond : Str → Str → Value → Type 0
IsBeyond base oid value = (value ≡ end_of_mib_view) ⊎ (has_prefix oid (base ++ codes ".") ≡ false)

leaves-eq-true :
    (base oid : Str) (value : Value) → IsBeyond base oid value → leaves base oid value ≡ true
unfolding leaves is_end_of_mib_view
leaves-eq-true base oid value (inl mark) = rw mark refl
leaves-eq-true base oid value (inr outside) = rw outside (ground arith)

-- An agent that answers from `current` on with the entries, each in the subtree, and then with
-- one that is beyond it.
abbrev pub Answers {ℓ} :
    {W : Type ℓ}
    → (Str → W → W × Result (Str × Value))
    → Str
    → Str
    → W
    → List (Str × Value)
    → W
    → Type ℓ
Answers {W = W} next base current w [] last =
    (oid : Str) × (value : Value) × (next current w ≡ (last, ok (oid, value)))
    × IsBeyond base oid value
Answers {W = W} next base current w ((oid, value) ∷ entries) last =
    (w' : W) × (next current w ≡ (w', ok (oid, value)))
    × InSubtree base oid value
    × Answers next base oid w' entries last

abbrev pub insert_all : Map Value → List (Str × Value) → Map Value
insert_all m [] = m
insert_all m ((oid, value) ∷ entries) = insert_all (insert oid value m) entries

module _ {ℓ} {W : Type ℓ} (next : Str → W → W × Result (Str × Value)) (base : Str) where
  walk_from-Answers :
      (m : Map Value) (current : Str) (w : W) (entries : List (Str × Value)) (last : W)
      → length m + length entries ≤ 10000
      → Answers next base current w entries last
      → walk_from next (suc (length entries)) base m current w ≡ (last, done (insert_all m entries))
  unfolding walk_from round
  walk_from-Answers m current w [] last le (oid, value, e, beyond) =
      rw (e, leaves-eq-true base oid value beyond) refl
  walk_from-Answers m current w ((oid, value) ∷ entries) last le (w', e, inside, more) =
      let size = length-insert oid value m in
      let room : ltb max_entries (length (insert oid value m)) ≡ false = ground arith in
      rw (e, leaves-eq-false base oid value inside, room)
        (walk_from-Answers (insert oid value m) oid w' entries last (omega (arith, size)) more)

  -- Where the agent answers with at most 10000 entries of the subtree one after the other and then
  -- with one outside it or the end-of-MIB-view mark, Walk returns the map of exactly these
  -- entries, without an error, after one request more than there are entries.
  pub walk-Answers :
      (w : W) (entries : List (Str × Value)) (last : W)
      → length entries ≤ 10000
      → Answers next base base w entries last
      → walk next (suc (length entries)) base w ≡ (last, done (insert_all [] entries))
  unfolding walk
  walk-Answers w entries last le h = walk_from-Answers [] base w entries last (omega arith) h

  same_insert :
      (oid : Str) (value : Value) (m : Map Value)
      → (m ≡ []) ⊎ (m ≡ (oid, value) ∷ [])
      → insert oid value m ≡ (oid, value) ∷ []
  unfolding insert
  same_insert oid value m (inl e) = rw e refl
  same_insert oid value m (inr e) = rw (e, str_eq_refl oid) refl

  walk_from_repeats :
      (fuel : ℕ) (oid : Str) (value : Value) (m : Map Value) (current : Str) (w : W)
      → ((c : Str) (v : W) → next c v ≡ (v, ok (oid, value)))
      → InSubtree base oid value
      → (m ≡ []) ⊎ (m ≡ (oid, value) ∷ [])
      → walk_from next fuel base m current w ≡ (w, stuck)
  unfolding walk_from round
  walk_from_repeats zero oid value m current w same inside h = refl
  walk_from_repeats (suc fuel) oid value m current w same inside h =
      let e = same_insert oid value m h in
      rw (same current w, leaves-eq-false base oid value inside, e)
        (walk_from_repeats fuel oid value ((oid, value) ∷ []) oid w same inside (inr refl))

  -- An agent that answers every request with one entry of the subtree keeps Walk in its loop for
  -- every number of rounds: the safety valve counts the entries of the map, and there is only one.
  pub walk_repeats :
      (fuel : ℕ) (oid : Str) (value : Value) (w : W)
      → ((c : Str) (v : W) → next c v ≡ (v, ok (oid, value)))
      → InSubtree base oid value
      → walk next fuel base w ≡ (w, stuck)
  unfolding walk
  walk_repeats fuel oid value w same inside =
      walk_from_repeats fuel oid value [] base w same inside (inl refl)

length-insert_fresh {κ} :
    (P : Str → Str → Type κ) (k : Str) (v : Value) (m : Map Value)
    → ((j : Str) → ¬ P j j)
    → Entries (λ j _. P j k) m
    → length (insert k v m) ≡ suc (length m)
unfolding insert
length-insert_fresh P k v [] irreflexive h = refl
length-insert_fresh P k v ((j, w) ∷ m) irreflexive h = elim (Bool-cases (str_eq j k)) [
  | inl same ↦ absurd (irreflexive k (subst (λ i. P i k) ((str_eq_iff j k).0 same) h.0))
  | inr other ↦ rw other (ap suc (length-insert_fresh P k v m irreflexive h.1))
]

module _ {ℓ κ} {W : Type ℓ} (next : Str → W → W × Result (Str × Value)) (base : Str)
    (Before : Str → Str → Type κ) (irreflexive : (j : Str) → ¬ Before j j)
    (transitive : (i j k : Str) → Before i j → Before j k → Before i k)
    (ascends : (current oid : Str) (value : Value) (w w' : W)
      → next current w ≡ (w', ok (oid, value))
      → is_end_of_mib_view value ≡ false
      → Before current oid) where
  AllBefore : Map Value → Str → Type κ
  AllBefore m current = (oid : Str) → Before current oid → Entries (λ j _. Before j oid) m

  -- A round that goes on does so with one entry more.
  round-ne-stuck :
      (m : Map Value) (current : Str) (w : W) (r : W × Result (Str × Value))
      (go_on : Map Value → Str → W → W × Outcome)
      → next current w ≡ r
      → AllBefore m current
      → ((more : Map Value) (oid : Str) (w' : W)
          → length more ≤ 10000
          → length more ≡ suc (length m)
          → AllBefore more oid
          → (go_on more oid w').1 ≢ stuck)
      → (round next base m r go_on).1 ≢ stuck
  unfolding round AllBefore
  round-ne-stuck m current w (w', err x) go_on e before step = λ q. cc
  round-ne-stuck m current w (w', panic) go_on e before step = λ q. cc
  round-ne-stuck m current w (w', ok (oid, value)) go_on e before step =
      let more = insert oid value m in
      elim (Bool-cases (leaves base oid value)) [
        | inl outside ↦ rw outside (λ q. cc)
        | inr inside ↦
            let climbs =
              ascends current oid value w w' e (leaves-InSubtree base oid value inside).1 in
            let size = length-insert_fresh Before oid value m irreflexive (before oid climbs) in
            let later : (oid2 : Str) → Before oid oid2 → Entries (λ j _. Before j oid2) more =
              λ oid2 up.
                insert-Entries (λ j _. Before j oid2) oid value m up
                  (before oid2 (transitive current oid oid2 climbs up)) in
            elim (Bool-cases (ltb max_entries (length more))) [
              | inl full ↦ rw (inside, full) (λ q. cc)
              | inr room ↦ rw (inside, room) (step more oid w' (ground arith) size later)
            ]
      ]

  walk_from-ne-stuck :
      (fuel : ℕ) (m : Map Value) (current : Str) (w : W)
      → length m ≤ 10000
      → 10001 ≤ length m + fuel
      → AllBefore m current
      → (walk_from next fuel base m current w).1 ≢ stuck
  unfolding walk_from
  walk_from-ne-stuck zero m current w le enough before = λ e. absurd (omega arith)
  walk_from-ne-stuck (suc fuel) m current w le enough before =
      round-ne-stuck m current w (next current w) (walk_from next fuel base) refl before
        (λ more oid w' room size later.
          walk_from-ne-stuck fuel more oid w' room (omega (arith, size)) later)

  -- Walk ends, within 10001 rounds, on every agent whose answer to GetNext is an error, the
  -- end-of-MIB-view mark under any OID, or an entry that comes later in some strict order of the
  -- OIDs than the OID asked about.
  pub walk-ne-stuck : (w : W) → (walk next 10001 base w).1 ≢ stuck
  unfolding walk AllBefore
  walk-ne-stuck w = walk_from-ne-stuck 10001 [] base w (omega arith) (omega arith) (λ oid h. tt)
