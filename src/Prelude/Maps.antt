-- ===== src/Prelude/Maps.antt =====
-- A Go map with string keys: an association list with one entry for each key. Go leaves the order
-- of a range over a map open; here it is the order of the first insertions.
use whatunga.Prelude.Tests.{if◌then◌else◌, Bool-cases, is_some}
use whatunga.Prelude.Lists.{All}
use whatunga.Prelude.Text.{Str, str_eq, str_eq_iff}
use mathlib.Core.Path.{◌≡◌, refl, sym, subst}
use mathlib.Core.Logic.{inl, inr}
use mathlib.Core.Bool.{Bool, false, ◌||◌}
use mathlib.Core.Option.{Option, none, some}
use mathlib.Core.List.{List, [], ◌∷◌}
use native.Mathlib.Omega.{arith}

abbrev pub Map {ℓ} : Type ℓ → Type ℓ
Map V = List (Str × V)

unfoldable pub contains : Str → List Str → Bool
contains k [] = false
contains k (j ∷ ks) = str_eq j k || contains k ks

module _ {ℓ} {V : Type ℓ} where
  -- m[k], and whether the key is there
  unfoldable pub lookup : Str → Map V → Option V
  lookup k [] = none
  lookup k ((j, v) ∷ m) = if str_eq j k then some v else lookup k m

  -- m[k] = v
  unfoldable pub insert : Str → V → Map V → Map V
  insert k v [] = (k, v) ∷ []
  insert k v ((j, w) ∷ m) = if str_eq j k then (j, v) ∷ m else (j, w) ∷ insert k v m

  -- delete(m, k)
  unfoldable pub delete : Str → Map V → Map V
  delete k [] = []
  delete k ((j, v) ∷ m) = let rest = delete k m in if str_eq j k then rest else (j, v) ∷ rest

  unfoldable pub keys : Map V → List Str
  keys [] = []
  keys ((k, v) ∷ m) = k ∷ keys m

  -- `k` is a key of `m`.
  abbrev pub has_key : Str → Map V → Bool
  has_key k m = is_some (lookup k m)

  pub contains-keys : (k : Str) (m : Map V) → contains k (keys m) ≡ has_key k m
  unfolding contains keys lookup
  contains-keys k [] = refl
  contains-keys k ((j, v) ∷ m) = ground (arith, contains-keys k m)

  pub lookup-insert :
      (k j : Str) (v : V) (m : Map V)
      → lookup j (insert k v m) ≡ (if str_eq k j then some v else lookup j m)
  unfolding lookup insert
  lookup-insert k j v [] = refl
  lookup-insert k j v ((i, w) ∷ m) =
      ground (arith, str_eq_iff k j, str_eq_iff i k, str_eq_iff i j, lookup-insert k j v m)

  pub lookup-delete :
      (k j : Str) (m : Map V) → lookup j (delete k m) ≡ (if str_eq k j then none else lookup j m)
  unfolding lookup delete
  lookup-delete k j [] = ground arith
  lookup-delete k j ((i, w) ∷ m) =
      ground (arith, str_eq_iff k j, str_eq_iff i k, str_eq_iff i j, lookup-delete k j m)

  -- No key stands twice.
  abbrev pub Distinct : Map V → Type ℓ
  Distinct [] = Unit {ℓ}
  Distinct ((k, v) ∷ m) = (lookup k m ≡ none) × Distinct m

  pub insert-Distinct : (k : Str) (v : V) (m : Map V) → Distinct m → Distinct (insert k v m)
  unfolding lookup insert
  insert-Distinct k v [] d = (refl, tt)
  insert-Distinct k v ((j, w) ∷ m) d =
      ground (arith, lookup-insert k j v m, str_eq_iff j k, str_eq_iff k j, insert-Distinct k v m)

  pub delete-Distinct : (k : Str) (m : Map V) → Distinct m → Distinct (delete k m)
  unfolding delete
  delete-Distinct k [] d = tt
  delete-Distinct k ((j, w) ∷ m) d = ground (arith, lookup-delete k j m, delete-Distinct k m)

  -- Every value of the map, with its key, satisfies `P`.
  abbrev pub Entries {κ} : (Str → V → Type κ) → Map V → Type κ
  Entries P m = All (λ (e : Str × V). P e.0 e.1) m

module _ {ℓ κ} {V : Type ℓ} (P : Str → V → Type κ) where
  pub lookup-Entries : (k : Str) (v : V) (m : Map V) → Entries P m → lookup k m ≡ some v → P k v
  unfolding lookup
  lookup-Entries k v [] h e = cc
  lookup-Entries k v ((j, w) ∷ m) h e = elim (Bool-cases (str_eq j k)) [
    | inl same ↦
        subst (λ i. P i v) ((str_eq_iff j k).0 same)
          (subst (P j) (let q : w ≡ v = ground arith in q) h.0)
    | inr other ↦ lookup-Entries k v m h.1 (rw other at e)
  ]

  pub insert-Entries :
      (k : Str) (v : V) (m : Map V) → P k v → Entries P m → Entries P (insert k v m)
  unfolding insert
  insert-Entries k v [] p h = (p, tt)
  insert-Entries k v ((j, w) ∷ m) p h = elim (Bool-cases (str_eq j k)) [
    | inl same ↦ rw same (subst (λ i. P i v) (sym ((str_eq_iff j k).0 same)) p, h.1)
    | inr other ↦ rw other (h.0, insert-Entries k v m p h.1)
  ]
