-- ===== src/Prelude/Trim.antt =====
-- strings.TrimSpace and strings.Trim. White space is that of Unicode, in UTF-8: six ASCII bytes,
-- two runes of two bytes, and seventeen of three.
use whatunga.Prelude.{
  ℕ, ◌≡◌, refl, ap, ◌∙◌, sym, subst, append_assoc, append-nil, ◌⊎◌, All, All-append, arith, inl,
  inr,
}
use whatunga.Prelude.{
  Bool, true, false, not, ◌&&◌, ◌||◌, [], ◌∷◌, ◌++◌, Str, ltb, leb, ◌==◌, if◌then◌else◌, is_nil,
}
use mathlib.Core.List.{reverse, reverse-append, reverse-reverse}

abbrev pub is_space : ℕ → Bool
is_space c = c == b' ' || (leb 9 c && leb c 13)

-- U+0085, U+00A0
abbrev is_space2 : ℕ → ℕ → Bool
is_space2 c d = c == 0xc2 && (d == 0x85 || d == 0xa0)

-- U+1680, U+2000 to U+200A, U+2028, U+2029, U+202F, U+205F, U+3000
abbrev is_space3 : ℕ → ℕ → ℕ → Bool
is_space3 c d e =
    (c == 0xe1 && d == 0x9a && e == 0x80)
    || (c == 0xe2
        && d == 0x80
        && ((leb 0x80 e && leb e 0x8a) || e == 0xa8 || e == 0xa9 || e == 0xaf))
    || (c == 0xe2 && d == 0x81 && e == 0x9f)
    || (c == 0xe3 && d == 0x80 && e == 0x80)

-- The text behind its leading spaces, for the two tests on several bytes.
unfoldable pub strip : (ℕ → ℕ → Bool) → (ℕ → ℕ → ℕ → Bool) → Str → Str
strip two three [] = []
strip two three (c ∷ []) = if is_space c then [] else c ∷ []
strip two three (c ∷ d ∷ []) =
    let rest = strip two three (d ∷ []) in
    if is_space c then rest else if two c d then [] else c ∷ d ∷ []
strip two three (c ∷ d ∷ e ∷ s) =
    let rest1 = strip two three (d ∷ e ∷ s) in
    let rest2 = strip two three (e ∷ s) in
    let rest3 = strip two three s in
    if is_space c
    then rest1
    else if two c d
    then rest2
    else if three c d e
    then rest3
    else c ∷ d ∷ e ∷ s

unfoldable pub trim_space_left : Str → Str
trim_space_left s = strip is_space2 is_space3 s

unfoldable pub trim_space_right : Str → Str
trim_space_right s = reverse (strip (λ c d. is_space2 d c) (λ c d e. is_space3 e d c) (reverse s))

-- strings.TrimSpace
unfoldable pub trim_space : Str → Str
trim_space s = trim_space_right (trim_space_left s)

-- strings.Trim, with a set of ASCII bytes.
unfoldable pub trim_set_left : (ℕ → Bool) → Str → Str
trim_set_left p [] = []
trim_set_left p (c ∷ s) = let rest = trim_set_left p s in if p c then rest else c ∷ s

unfoldable pub trim_set_right : (ℕ → Bool) → Str → Str
trim_set_right p [] = []
trim_set_right p (c ∷ s) =
    let rest = trim_set_right p s in if p c && is_nil rest then [] else c ∷ rest

unfoldable pub trim_set : (ℕ → Bool) → Str → Str
trim_set p s = trim_set_right p (trim_set_left p s)

-- A byte that no trimming takes away: an ASCII byte that is no space.
abbrev pub is_solid : ℕ → Bool
is_solid c = not (is_space c) && ltb c 128

strip-solid :
    (two : ℕ → ℕ → Bool) (three : ℕ → ℕ → ℕ → Bool) (c : ℕ) (s : Str)
    → is_solid c ≡ true
    → ((d : ℕ) → two c d ≡ false)
    → ((d e : ℕ) → three c d e ≡ false)
    → strip two three (c ∷ s) ≡ c ∷ s
unfolding strip
strip-solid two three c [] h h2 h3 = ground arith
strip-solid two three c (d ∷ []) h h2 h3 = ground (arith, h2 d)
strip-solid two three c (d ∷ e ∷ s) h h2 h3 = ground (arith, h2 d, h3 d e)

pub trim_space_left-solid : (c : ℕ) (s : Str) → is_solid c ≡ true → trim_space_left (c ∷ s) ≡ c ∷ s
unfolding trim_space_left
trim_space_left-solid c s h =
    strip-solid is_space2 is_space3 c s h (λ d. ground arith) (λ d e. ground arith)

pub trim_space_right-solid :
    (s : Str) (c : ℕ) → is_solid c ≡ true → trim_space_right (s ++ c ∷ []) ≡ s ++ c ∷ []
unfolding trim_space_right
trim_space_right-solid s c h =
    ap (λ (t : Str). reverse (strip (λ c d. is_space2 d c) (λ c d e. is_space3 e d c) t))
      (reverse-append s (c ∷ []))
    ∙ ap reverse (
        strip-solid (λ c d. is_space2 d c) (λ c d e. is_space3 e d c) c (reverse s) h
          (λ d. ground arith) (λ d e. ground arith))
    ∙ ap reverse (sym (reverse-append s (c ∷ [])))
    ∙ reverse-reverse (s ++ c ∷ [])

pub trim_space_left-space : (s : Str) → trim_space_left (b' ' ∷ s) ≡ trim_space_left s
unfolding trim_space_left strip
trim_space_left-space [] = refl
trim_space_left-space (c ∷ []) = refl
trim_space_left-space (c ∷ d ∷ s) = refl

strip-AllSolid :
    (two : ℕ → ℕ → Bool) (three : ℕ → ℕ → ℕ → Bool) (s : Str)
    → ((c d : ℕ) → is_solid c ≡ true → two c d ≡ false)
    → ((c d e : ℕ) → is_solid c ≡ true → three c d e ≡ false)
    → All (λ c. is_solid c ≡ true) s
    → strip two three s ≡ s
strip-AllSolid two three [] h2 h3 h = unfold strip in refl
strip-AllSolid two three (c ∷ s) h2 h3 h =
    strip-solid two three c s h.0 (λ d. h2 c d h.0) (λ d e. h3 c d e h.0)

All-reverse : (s : Str) → All (λ c. is_solid c ≡ true) s → All (λ c. is_solid c ≡ true) (reverse s)
All-reverse [] h = tt
All-reverse (c ∷ s) h =
    subst (All (λ c. is_solid c ≡ true)) (sym (reverse-append (c ∷ []) s))
      (All-append (λ c. is_solid c ≡ true) (reverse s) (c ∷ []) (All-reverse s h.1) (h.0, tt))

-- A text without spaces is left as it is.
pub trim_space-AllSolid : (s : Str) → All (λ c. is_solid c ≡ true) s → trim_space s ≡ s
unfolding trim_space trim_space_left trim_space_right
trim_space-AllSolid s h =
    let left : strip is_space2 is_space3 s ≡ s =
      strip-AllSolid is_space2 is_space3 s (λ c d solid. ground arith) (λ c d e solid. ground arith)
        h in
    let right : strip (λ c d. is_space2 d c) (λ c d e. is_space3 e d c) (reverse s) ≡ reverse s =
      strip-AllSolid (λ c d. is_space2 d c) (λ c d e. is_space3 e d c) (reverse s)
        (λ c d solid. ground arith) (λ c d e solid. ground arith) (All-reverse s h) in
    rw (left, right) (reverse-reverse s)

strip-space :
    (two : ℕ → ℕ → Bool) (three : ℕ → ℕ → ℕ → Bool) (c : ℕ) (s : Str)
    → is_space c ≡ true
    → strip two three (c ∷ s) ≡ strip two three s
unfolding strip
strip-space two three c [] h = ground arith
strip-space two three c (d ∷ []) h = rw h refl
strip-space two three c (d ∷ e ∷ s) h = rw h refl

-- An ASCII space in the end.
pub trim_space_right-space :
    (s : Str) (c : ℕ) → is_space c ≡ true → trim_space_right (s ++ c ∷ []) ≡ trim_space_right s
unfolding trim_space_right
trim_space_right-space s c h =
    ap (λ (t : Str). reverse (strip (λ c d. is_space2 d c) (λ c d e. is_space3 e d c) t))
      (reverse-append s (c ∷ []))
    ∙ ap reverse (strip-space (λ c d. is_space2 d c) (λ c d e. is_space3 e d c) c (reverse s) h)

-- A text that ends in a byte that no trimming takes away.
abbrev pub EndsSolid : Str → Type 0
EndsSolid s = (t : Str) × (c : ℕ) × (s ≡ t ++ c ∷ []) × (is_solid c ≡ true)

pub EndsSolid-append : (s t : Str) → EndsSolid t → EndsSolid (s ++ t)
EndsSolid-append s t (u, c, e, h) = (s ++ u, c, ap (◌++◌ s) e ∙ sym (append_assoc s u (c ∷ [])), h)

pub EndsSolid-AllSolid :
    (c : ℕ) (s : Str) → All (λ d. is_solid d ≡ true) (c ∷ s) → EndsSolid (c ∷ s)
EndsSolid-AllSolid c [] h = ([], c, refl, h.0)
EndsSolid-AllSolid c (d ∷ s) h = EndsSolid-append (c ∷ []) (d ∷ s) (EndsSolid-AllSolid d s h.1)

right_end :
    (s t : Str)
    → (t ≡ []) ⊎ (t ≡ 13 ∷ []) ⊎ (t ≡ 13 ∷ 10 ∷ [])
    → trim_space_right (s ++ t) ≡ trim_space_right s
right_end s t (inl e) =
    ap (λ (x : Str). trim_space_right (s ++ x)) e ∙ ap trim_space_right (append-nil s)
right_end s t (inr (inl e)) =
    ap (λ (x : Str). trim_space_right (s ++ x)) e ∙ trim_space_right-space s 13 refl
right_end s t (inr (inr e)) =
    ap (λ (x : Str). trim_space_right (s ++ x)) e
    ∙ ap trim_space_right (sym (append_assoc s (13 ∷ []) (10 ∷ [])))
    ∙ trim_space_right-space (s ++ 13 ∷ []) 10 refl
    ∙ trim_space_right-space s 13 refl

-- A text between solid bytes, with a line's end behind it.
pub trim_space_line :
    (c : ℕ) (s t : Str)
    → is_solid c ≡ true
    → EndsSolid (c ∷ s)
    → (t ≡ []) ⊎ (t ≡ 13 ∷ []) ⊎ (t ≡ 13 ∷ 10 ∷ [])
    → trim_space ((c ∷ s) ++ t) ≡ c ∷ s
unfolding trim_space
trim_space_line c s t h (u, d, e, k) ending =
    let ended : trim_space_right (c ∷ s) ≡ c ∷ s =
      ap trim_space_right e ∙ trim_space_right-solid u d k ∙ sym e in
    ap trim_space_right (trim_space_left-solid c (s ++ t) h) ∙ right_end (c ∷ s) t ending ∙ ended
