-- ===== src/Daemon/Pollers.antt =====
-- Which pollers a configuration gives: openPollers of cmd/whatunga/main.go.
use whatunga.Prelude.{
  ◌≡◌, refl, ap, ◌∙◌, Bool, true, false, Option, none, some, if◌then◌else◌, List, [], ◌∷◌, map, Str,
  str_eq, last?, keep,
}
use whatunga.Prelude.Maps.{Map, lookup, lookup-insert}
use whatunga.Config.{Device}
use whatunga.Daemon.{
  Poller, PollerEntry, Outside, device_kind, new_poller_for, with_poller, open_from, open_pollers,
}

module _ {ℓ} {A : Type ℓ} where
  -- The last item, or the one given.
  abbrev last_or : Option A → List A → Option A
  last_or before [] = before
  last_or before (x ∷ xs) = last_or (some x) xs

  last_or-some : (x : A) (xs : List A) → last_or (some x) xs ≡ last? (x ∷ xs)
  last_or-some x [] = refl
  last_or-some x (y ∷ xs) = last_or-some y xs

  last_or-none : (xs : List A) → last_or none xs ≡ last? xs
  last_or-none [] = refl
  last_or-none (x ∷ xs) = last_or-some x xs

module _ {ℓ} {W : Type ℓ} (outside : Outside W) where
  abbrev opened_first :
      Device → Option (Poller W) → List (Device × Poller W) → List (Device × Poller W)
  opened_first d none rest = rest
  opened_first d (some p) rest = (d, p) ∷ rest

  -- The devices whose pollers can be set up, in the order of the configuration, each with its
  -- poller.
  abbrev pub opened : List Device → W → W × List (Device × Poller W)
  opened [] w = (w, [])
  opened (d ∷ ds) w =
      let (w1, p) = new_poller_for outside d w in
      let (w2, rest) = opened ds w1 in (w2, opened_first d p rest)

  abbrev pub entry_of : Device × Poller W → PollerEntry W
  entry_of o = record { poller = o.1; kind = device_kind o.0.type }

  abbrev pub of_name : Str → List (Device × Poller W) → List (Device × Poller W)
  of_name name = keep (λ o. str_eq o.0.name name)

  last_or-entry :
      (b : Bool) (before : Option (PollerEntry W)) (o : Device × Poller W)
      (rest : List (Device × Poller W))
      → last_or (if b then some (entry_of o) else before) (map entry_of rest)
        ≡ last_or before (map entry_of (if b then o ∷ rest else rest))
  last_or-entry true before o rest = refl
  last_or-entry false before o rest = refl

  lookup-with_poller :
      (name : Str) (d : Device) (p : Option (Poller W)) (pollers : Map (PollerEntry W))
      (rest : List (Device × Poller W))
      → last_or (lookup name (with_poller outside d p pollers)) (map entry_of (of_name name rest))
        ≡ last_or (lookup name pollers) (map entry_of (of_name name (opened_first d p rest)))
  unfolding with_poller
  lookup-with_poller name d none pollers rest = refl
  lookup-with_poller name d (some p) pollers rest =
      ap (λ (b : Option (PollerEntry W)). last_or b (map entry_of (of_name name rest)))
        (lookup-insert d.name name (entry_of (d, p)) pollers)
      ∙ last_or-entry (str_eq d.name name) (lookup name pollers) (d, p) (of_name name rest)

  lookup-open_from :
      (name : Str) (pollers : Map (PollerEntry W)) (ds : List Device) (w : W)
      → lookup name (open_from outside pollers ds w).1
        ≡ last_or (lookup name pollers) (map entry_of (of_name name (opened ds w).1))
  unfolding open_from
  lookup-open_from name pollers [] w = refl
  lookup-open_from name pollers (d ∷ ds) w =
      let (w1, p) = new_poller_for outside d w in
      lookup-open_from name (with_poller outside d p pollers) ds w1
      ∙ lookup-with_poller name d p pollers (opened ds w1).1

  world-open_from :
      (pollers : Map (PollerEntry W)) (ds : List Device) (w : W)
      → (open_from outside pollers ds w).0 ≡ (opened ds w).0
  unfolding open_from
  world-open_from pollers [] w = refl
  world-open_from pollers (d ∷ ds) w =
      let (w1, p) = new_poller_for outside d w in
      world-open_from (with_poller outside d p pollers) ds w1

  -- The poller that a run asks for a name is that of the last device of this name whose poller can
  -- be set up, with the kind of that device, and there is none where there is no such device. Nothing
  -- else happens than that the pollers are set up, in order: that of an earlier device of the name
  -- is dropped without being closed.
  pub lookup-open_pollers :
      (name : Str) (ds : List Device) (w : W)
      → ((open_pollers outside ds w).0 ≡ (opened ds w).0)
        × (lookup name (open_pollers outside ds w).1
            ≡ last? (map entry_of (of_name name (opened ds w).1)))
  unfolding open_pollers lookup
  lookup-open_pollers name ds w = (
    world-open_from [] ds w,
    lookup-open_from name [] ds w ∙ last_or-none (map entry_of (of_name name (opened ds w).1)),
  )
