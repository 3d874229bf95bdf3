-- ===== src/Config/Lines.antt =====
-- One printed line through the loop of Load (internal/config/config.go).
use whatunga.Prelude.{
  ℕ, zero, suc, sym, ◌+◌, ◌≤◌, ◌≡◌, refl, ap, ◌∙◌, arith, Bool, true, false, not, ◌&&◌, List, [],
  ◌∷◌, ◌++◌, append_assoc, Str, has_prefix, ltb, leb, ◌==◌, length, length-append,
}
use mathlib.Core.Path.{fun_ext}
use whatunga.Prelude.Trim.{is_solid, trim_space, trim_space_left, trim_space_right, strip}
use whatunga.Config.{ok, ◌>>=◌, Parser}
use whatunga.Config.Load.{drop_cr, switch, step, scan_line, parse_lines, drop_last_blank, max_line}
use whatunga.Config.Print.{field_line}
use whatunga.Config.Values.{trim_space-space, trim_space-framed}

drop_cr-append_one : (s : Str) (c : ℕ) → (c == 13) ≡ false → drop_cr (s ++ c ∷ []) ≡ s ++ c ∷ []
unfolding drop_cr
drop_cr-append_one [] c h = rw h refl
drop_cr-append_one (d ∷ []) c h = rw h refl
drop_cr-append_one (d ∷ e ∷ s) c h = ap (◌∷◌ d) (drop_cr-append_one (e ∷ s) c h)

-- A text behind `n` spaces.
abbrev pub spaces : ℕ → Str → Str
spaces zero s = s
spaces (suc n) s = b' ' ∷ spaces n s

drop_cr-spaces : (n c : ℕ) (s : Str) → drop_cr (spaces n (c ∷ s)) ≡ spaces n (drop_cr (c ∷ s))
unfolding drop_cr
drop_cr-spaces zero c s = refl
drop_cr-spaces (suc zero) c s = refl
drop_cr-spaces (suc (suc n)) c s = ap (◌∷◌ b' ') (drop_cr-spaces (suc n) c s)

length-spaces : (n : ℕ) (s : Str) → length (spaces n s) ≡ n + length s
length-spaces zero s = omega arith
length-spaces (suc n) s = omega (arith, length-spaces n s)

-- A key that may stand behind `n` spaces.
abbrev pub is_field : ℕ → Str → Bool
is_field n [] = false
is_field n (k ∷ key) = is_solid k && not (k == b'#') && leb n 4 && leb (length key) 100

module _ (fraction : ℕ → ℕ → ℕ → ℕ) where
  -- A line that begins and ends with bytes that are not trimmed reaches the switch as it is.
  step_framed :
      (p : Parser) (c d : ℕ) (s : Str)
      → is_solid c ≡ true
      → is_solid d ≡ true
      → (c == b'#') ≡ false
      → step fraction p (c ∷ (s ++ d ∷ [])) ≡ switch fraction p (c ∷ (s ++ d ∷ []))
  unfolding step has_prefix
  step_framed p c d s hc hd hash = rw (trim_space-framed c d s hc hd, hash) refl

  step_space : (p : Parser) (s : Str) → step fraction p (b' ' ∷ s) ≡ step fraction p s
  unfolding step
  step_space p s = rw (trim_space-space s) refl

  step-spaces : (n : ℕ) (p : Parser) (s : Str) → step fraction p (spaces n s) ≡ step fraction p s
  step-spaces zero p s = refl
  step-spaces (suc n) p s = step_space p (spaces n s) ∙ step-spaces n p s

  -- The whole of a line that fits.
  pub scan_line-spaces :
      (n : ℕ) (p : Parser) (c d : ℕ) (s : Str)
      → is_solid c ≡ true
      → is_solid d ≡ true
      → (c == b'#') ≡ false
      → n ≤ 4
      → length s ≤ 65000
      → scan_line fraction p (spaces n (c ∷ (s ++ d ∷ []))) ≡ switch fraction p (c ∷ (s ++ d ∷ []))
  unfolding scan_line
  scan_line-spaces n p c d s hc hd hash indented short =
      let fits : ltb max_line (length (spaces n (c ∷ (s ++ d ∷ [])))) ≡ false =
        ground (arith, length-spaces n (c ∷ (s ++ d ∷ [])), length-append s (d ∷ [])) in
      let no_cr : (d == 13) ≡ false = ground arith in
      rw
        (
          fits,
          drop_cr-spaces n c (s ++ d ∷ []),
          drop_cr-append_one (c ∷ s) d no_cr,
          step-spaces n p (c ∷ (s ++ d ∷ [])),
        )
        (step_framed p c d s hc hd hash)

  pub parse_lines_ok :
      (p q : Parser) (line : Str) (lines : List Str)
      → scan_line fraction p line ≡ ok q
      → parse_lines fraction p (line ∷ lines) ≡ parse_lines fraction q lines
  unfolding parse_lines
  parse_lines_ok p q line lines e = rw e refl

  pub parse_lines-blank :
      (p : Parser) (lines : List Str)
      → parse_lines fraction p ([] ∷ lines) ≡ parse_lines fraction p lines
  parse_lines-blank p lines = parse_lines_ok p p [] lines (
      unfold scan_line step drop_cr trim_space trim_space_left trim_space_right strip has_prefix in
      refl)

  parse_lines-cons :
      (p : Parser) (line : Str) (lines others : List Str)
      → ((q : Parser) → parse_lines fraction q lines ≡ parse_lines fraction q others)
      → parse_lines fraction p (line ∷ lines) ≡ parse_lines fraction p (line ∷ others)
  unfolding parse_lines
  parse_lines-cons p line lines others h = ap (◌>>=◌ (scan_line fraction p line)) (fun_ext h)

  -- A blank last line changes nothing.
  pub parse_lines-drop_last_blank :
      (p : Parser) (lines : List Str)
      → parse_lines fraction p (drop_last_blank lines) ≡ parse_lines fraction p lines
  unfolding drop_last_blank
  parse_lines-drop_last_blank p [] = refl
  parse_lines-drop_last_blank p ([] ∷ []) = sym (parse_lines-blank p [])
  parse_lines-drop_last_blank p ((c ∷ s) ∷ []) = refl
  parse_lines-drop_last_blank p (line ∷ next ∷ lines) =
      parse_lines-cons p line (drop_last_blank (next ∷ lines)) (next ∷ lines)
        (λ q. parse_lines-drop_last_blank q (next ∷ lines))

  -- A printed field.
  pub parse_lines-field_line :
      (n : ℕ) (p q : Parser) (key v : Str) (lines : List Str)
      → switch fraction p (field_line key v) ≡ ok q
      → is_field n key ≡ true
      → length v ≤ 60000
      → parse_lines fraction p (spaces n (field_line key v) ∷ lines) ≡ parse_lines fraction q lines
  parse_lines-field_line n p q [] v lines e shape short = cc
  parse_lines-field_line n p q (k ∷ key) v lines e shape short =
      let s : Str = key ++ b':' ∷ b' ' ∷ b'"' ∷ v in
      let same : s ++ b'"' ∷ [] ≡ key ++ b':' ∷ b' ' ∷ b'"' ∷ (v ++ b'"' ∷ []) =
        append_assoc key (b':' ∷ b' ' ∷ b'"' ∷ v) (b'"' ∷ []) in
      let shaped : (is_solid k ≡ true) × ((k == b'#') ≡ false) × (n ≤ 4) × (length key ≤ 100) =
        (ground arith, ground arith, ground arith, ground arith) in
      let fits : length s ≤ 65000 = omega (arith, length-append key (b':' ∷ b' ' ∷ b'"' ∷ v)) in
      parse_lines_ok p q (spaces n (field_line (k ∷ key) v)) lines (
        ap (λ (t : Str). scan_line fraction p (spaces n (k ∷ t))) (sym same)
        ∙ scan_line-spaces n p k b'"' s shaped.0 refl shaped.1 shaped.2 fits
        ∙ ap (λ (t : Str). switch fraction p (k ∷ t)) same
        ∙ e)
