-- ===== src/Prelude/Split.antt =====
-- strings.Split and strings.Join on a separator of one byte.
use whatunga.Prelude.{
  ℕ, zero, suc, Option, none, some, ◌≡◌, refl, ap, ◌∙◌, arith, Bool, true, false, not, ◌&&◌,
  All-append, List, [], ◌∷◌, ◌++◌,
}
use whatunga.Prelude.{Str, All, ◌==◌, if◌then◌else◌}

-- A byte in front of the first part.
unfoldable pub push_first : ℕ → List Str → List Str
push_first c [] = (c ∷ []) ∷ []
push_first c (part ∷ parts) = (c ∷ part) ∷ parts

-- Never the empty list: the empty text has one part, which is empty.
unfoldable pub split : ℕ → Str → List Str
unfolding push_first
split sep [] = [] ∷ []
split sep (c ∷ s) = let parts = split sep s in if c == sep then [] ∷ parts else push_first c parts

unfoldable pub join : ℕ → List Str → Str
join sep [] = []
join sep (part ∷ []) = part
join sep (part ∷ next ∷ parts) = part ++ sep ∷ join sep (next ∷ parts)

abbrev pub Without : ℕ → Str → Type 0
Without sep s = All (λ c. (c == sep) ≡ false) s

pub split_part :
    (sep : ℕ) (part s : Str) → Without sep part → split sep (part ++ sep ∷ s) ≡ part ∷ split sep s
unfolding split
split_part sep [] s h = ground arith
split_part sep (c ∷ part) s h = rw (h.0, split_part sep part s h.1)

pub split_last : (sep : ℕ) (part : Str) → Without sep part → split sep part ≡ part ∷ []
unfolding split
split_last sep [] h = refl
split_last sep (c ∷ part) h = rw (h.0, split_last sep part h.1)

-- Splitting undoes joining, where no part holds the separator.
pub split-join :
    (sep : ℕ) (part : Str) (parts : List Str)
    → All (Without sep) (part ∷ parts)
    → split sep (join sep (part ∷ parts)) ≡ part ∷ parts
unfolding join
split-join sep part [] h = split_last sep part h.0
split-join sep part (next ∷ parts) h =
    split_part sep part (join sep (next ∷ parts)) h.0
    ∙ ap (◌∷◌ part) (split-join sep next parts h.1)

-- strings.Cut
unfoldable pub cut : ℕ → Str → Option (Str × Str)
cut sep [] = none
cut sep (c ∷ s) =
    let rest = cut sep s in
    if c == sep then some ([], s) else elim rest [ none ↦ none | some (a, b) ↦ some (c ∷ a, b) ]

cut_onto : Str → Option (Str × Str) → (Str → List Str) → List Str
cut_onto s none more = s ∷ []
cut_onto s (some (a, b)) more = a ∷ more b

-- strings.SplitN, for a positive number of parts.
unfoldable pub split_n : ℕ → ℕ → Str → List Str
unfolding cut_onto
split_n zero sep s = []
split_n (suc zero) sep s = s ∷ []
split_n (suc (suc n)) sep s = cut_onto s (cut sep s) (split_n (suc n) sep)

pub cut_part :
    (sep : ℕ) (part s : Str) → Without sep part → cut sep (part ++ sep ∷ s) ≡ some (part, s)
unfolding cut
cut_part sep [] s h = ground arith
cut_part sep (c ∷ part) s h = rw (h.0, cut_part sep part s h.1) refl

pub cut-Without : (sep : ℕ) (s : Str) → Without sep s → cut sep s ≡ none
unfolding cut
cut-Without sep [] h = refl
cut-Without sep (c ∷ s) h = rw (h.0, cut-Without sep s h.1) refl

pub split_n_part :
    (n sep : ℕ) (part s : Str)
    → Without sep part
    → split_n (suc (suc n)) sep (part ++ sep ∷ s) ≡ part ∷ split_n (suc n) sep s
unfolding split_n
split_n_part n sep part s h = rw (cut_part sep part s h) refl

-- A test for a literal.
abbrev pub free_of : ℕ → Str → Bool
free_of sep [] = true
free_of sep (c ∷ s) = not (c == sep) && free_of sep s

pub free_of→Without : (sep : ℕ) (s : Str) → free_of sep s ≡ true → Without sep s
free_of→Without sep [] h = tt
free_of→Without sep (c ∷ s) h = (ground arith, free_of→Without sep s (ground arith))

pub Without-append : (sep : ℕ) (s t : Str) → Without sep s → Without sep t → Without sep (s ++ t)
Without-append sep s t h k = All-append (λ c. (c == sep) ≡ false) s t h k
