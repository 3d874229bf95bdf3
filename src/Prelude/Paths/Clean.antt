-- ===== src/Prelude/Paths/Clean.antt =====
-- Paths that net/http's cleanPath leaves as they are.
use whatunga.Prelude.{
  ◌≡◌, refl, ap, ◌∙◌, arith, Bool, true, false, not, ◌||◌, none, List, [], ◌∷◌, ◌++◌, map,
  append-nil, Str, codes, str_eq, str_eq_iff, str_eq_refl, All, is_nil, last?,
}
use whatunga.Prelude.Split.{join, Without, split-join, free_of, free_of→Without}
use whatunga.Prelude.Paths.{
  unescape, parts_of, clean_part, clean_parts, reverse_onto, ending, rooted, cleaned, clean_path,
  redirection, IsKept,
}

clean_part-IsKept :
    (part : Str) (kept : List Str) → IsKept part → clean_part part kept ≡ part ∷ kept
unfolding clean_part
clean_part-IsKept [] kept h = absurd (h.not_empty refl)
clean_part-IsKept (c ∷ part) kept h = ground (
  arith,
  str_eq_iff (c ∷ part) (codes "."),
  str_eq_iff (c ∷ part) (codes ".."),
  h.not_dot,
  h.not_dots,
)

clean_parts-IsKept :
    (parts kept : List Str) → All IsKept parts → clean_parts parts kept ≡ reverse_onto parts kept
unfolding clean_parts
clean_parts-IsKept [] kept h = refl
clean_parts-IsKept (part ∷ parts) kept h =
    rw (clean_part-IsKept part kept h.0) (clean_parts-IsKept parts (part ∷ kept) h.1)

reverse_onto-twice :
    (xs ys zs : List Str) → reverse_onto (reverse_onto xs ys) zs ≡ reverse_onto ys (xs ++ zs)
reverse_onto-twice [] ys zs = refl
reverse_onto-twice (x ∷ xs) ys zs = reverse_onto-twice xs (x ∷ ys) zs

is_nil-reverse_onto :
    (xs : List Str) (y : Str) (ys : List Str) → is_nil (reverse_onto xs (y ∷ ys)) ≡ false
is_nil-reverse_onto [] y ys = refl
is_nil-reverse_onto (x ∷ xs) y ys = is_nil-reverse_onto xs x (y ∷ ys)

ending-IsKept :
    (part : Str) (parts : List Str) → All IsKept (part ∷ parts) → ending (last? (part ∷ parts)) ≡ []
ending-IsKept [] [] h = absurd (h.0.not_empty refl)
ending-IsKept (c ∷ part) [] h = refl
ending-IsKept part (next ∷ parts) h = ending-IsKept next parts h.1

pub whole_parts : (parts : List Str) → All IsKept parts → All (Without b'/') parts
whole_parts [] h = tt
whole_parts (part ∷ parts) h = (h.0.whole, whole_parts parts h.1)

cleaned-IsKept :
    (part : Str) (parts : List Str)
    → All IsKept (part ∷ parts)
    → cleaned ([] ∷ part ∷ parts) ≡ [] ∷ part ∷ parts
cleaned-IsKept part parts h =
    let kept : clean_parts ([] ∷ part ∷ parts) [] ≡ reverse_onto parts (part ∷ []) =
      (unfold clean_parts clean_part in clean_parts-IsKept (part ∷ parts) [] h) in
    rw (kept, is_nil-reverse_onto parts part [], ending-IsKept part parts h)
      (ap (◌∷◌ []) (reverse_onto-twice parts (part ∷ []) [] ∙ ap (◌∷◌ part) (append-nil parts)))

-- A path of parts that cleaning keeps is clean.
clean_path-join :
    (part : Str) (parts : List Str)
    → All IsKept (part ∷ parts)
    → clean_path (join b'/' ([] ∷ part ∷ parts)) ≡ join b'/' ([] ∷ part ∷ parts)
unfolding clean_path rooted join
clean_path-join part parts h =
    ap (λ ps. join b'/' (cleaned ps))
      (split-join b'/' [] (part ∷ parts) (tt, whole_parts (part ∷ parts) h))
    ∙ ap (join b'/') (cleaned-IsKept part parts h)

pub redirection-join :
    (part : Str) (parts : List Str)
    → All IsKept (part ∷ parts)
    → redirection [] (join b'/' ([] ∷ part ∷ parts)) ≡ none
unfolding redirection
redirection-join part parts h =
    rw (clean_path-join part parts h, str_eq_refl (join b'/' ([] ∷ part ∷ parts))) refl

pub parts_of-join :
    (part : Str) (parts : List Str)
    → All (Without b'/') (part ∷ parts)
    → parts_of (join b'/' (part ∷ parts)) ≡ map unescape (part ∷ parts)
unfolding parts_of
parts_of-join part parts h = ap (map unescape) (split-join b'/' part parts h)

abbrev pub is_kept : Str → Bool
is_kept part = not (is_nil part || str_eq part (codes ".") || str_eq part (codes ".."))

pub IsKept-of : (part : Str) → free_of b'/' part ≡ true → is_kept part ≡ true → IsKept part
unfolding str_eq
IsKept-of part h k = record {
  whole = free_of→Without b'/' part h;
  not_empty = λ e. absurd (clash (ap is_kept e) k);
  not_dot = λ e. absurd (clash (ap is_kept e) k);
  not_dots = λ e. absurd (clash (ap is_kept e) k);
}
  where
    clash : {a : Bool} → a ≡ false → a ≡ true → ⊥
    clash p q = cc
