-- ===== src/Config/Comments.antt =====
-- A comment behind a value, as config.example.yaml has them, for Load of
-- internal/config/config.go.
use whatunga.Prelude.{
  ℕ, ◌+◌, ◌≤◌, ◌≡◌, ◌≢◌, refl, sym, ap, ◌∙◌, arith, Bool, true, false, some, List, [], ◌∷◌, ◌++◌,
  append_assoc, Str, All, codes, str_eq, has_prefix, is_nil, length, length-append,
}
use whatunga.Prelude.Decimal.{is_digit}
use whatunga.Prelude.Atoi.{atoi_bad}
use whatunga.Prelude.Split.{join, split-join, Without}
use whatunga.Prelude.Trim.{is_solid, trim_set_left, trim_set_right, trim_set}
use whatunga.Config.{
  Config, Parser, LoadError, Result, ok, err, ◌>>=◌, is_quote, after_colon, value_after_colon,
  set_number, invalid_history_size,
}
use whatunga.Config.Load.{
  switch, setting, scan_line, scan_lines, drop_last_blank, parse_lines, finish, load, new_parser,
}
use whatunga.Config.Values.{trim_space-space, trim_space-framed}
use whatunga.Config.Lines.{scan_line-spaces, parse_lines-drop_last_blank}

is_nil-append_one : (v : Str) (c : ℕ) → is_nil (v ++ c ∷ []) ≡ false
is_nil-append_one [] c = refl
is_nil-append_one (d ∷ v) c = refl

trim_set_right-append_one :
    (v : Str) (c : ℕ) → is_quote c ≡ false → trim_set_right is_quote (v ++ c ∷ []) ≡ v ++ c ∷ []
unfolding trim_set_right
trim_set_right-append_one [] c h = rw h refl
trim_set_right-append_one (d ∷ v) c h =
    rw (trim_set_right-append_one v c h) (ground (arith, is_nil-append_one v c))

-- A text between two bytes that are neither spaces nor quotes is kept.
value_after_colon-framed :
    (c d : ℕ) (s : Str)
    → is_solid c ≡ true
    → is_quote c ≡ false
    → is_solid d ≡ true
    → is_quote d ≡ false
    → value_after_colon (codes "history_size: " ++ c ∷ (s ++ d ∷ [])) ≡ c ∷ (s ++ d ∷ [])
unfolding value_after_colon after_colon trim_set trim_set_left
value_after_colon-framed c d s hc qc hd qd =
    rw (trim_space-space (c ∷ (s ++ d ∷ [])), trim_space-framed c d s hc hd, qc)
      (trim_set_right-append_one (c ∷ s) d qd)

-- The line with a number, anything, a hash sign and a comment.
abbrev pub commented_line : ℕ → Str → Str → ℕ → Str
commented_line d s t e = codes "history_size: " ++ d ∷ (s ++ b'#' ∷ (t ++ e ∷ []))

module _ (fraction : ℕ → ℕ → ℕ → ℕ) where
  module _ (d e : ℕ) (s t : Str) (digit : is_digit d ≡ true) (solid : is_solid e ≡ true)
      (unquoted : is_quote e ≡ false) where
    switch-commented_line :
        (p : Parser) → switch fraction p (commented_line d s t e) ≡ err invalid_history_size
    unfolding switch setting set_number has_prefix str_eq
    switch-commented_line p =
        let same : (s ++ b'#' ∷ t) ++ e ∷ [] ≡ s ++ b'#' ∷ (t ++ e ∷ []) =
          append_assoc s (b'#' ∷ t) (e ∷ []) in
        let value : value_after_colon (commented_line d s t e) ≡ d ∷ (s ++ b'#' ∷ (t ++ e ∷ [])) =
          ap (λ (r : Str). value_after_colon (codes "history_size: " ++ d ∷ r)) (sym same)
          ∙ value_after_colon-framed d e (s ++ b'#' ∷ t) (ground arith) (ground arith) solid
              unquoted
          ∙ ap (◌∷◌ d) same in
        rw (value, atoi_bad d s b'#' (t ++ e ∷ []) refl) refl

    scan_line-commented_line :
        (p : Parser)
        → length s + length t ≤ 60000
        → scan_line fraction p (commented_line d s t e) ≡ err invalid_history_size
    scan_line-commented_line p short =
        let r : Str = codes "istory_size: " ++ d ∷ (s ++ b'#' ∷ t) in
        let same : (s ++ b'#' ∷ t) ++ e ∷ [] ≡ s ++ b'#' ∷ (t ++ e ∷ []) =
          append_assoc s (b'#' ∷ t) (e ∷ []) in
        let fits : length r ≤ 65000 = omega (arith, length-append s (b'#' ∷ t)) in
        ap (λ (x : Str). scan_line fraction p (codes "history_size: " ++ d ∷ x)) (sym same)
        ∙ scan_line-spaces fraction 0 p b'h' e r refl solid refl (omega arith) fits
        ∙ ap (λ (x : Str). switch fraction p (codes "history_size: " ++ d ∷ x)) same
        ∙ switch-commented_line p

  rejected_bind :
      (r : Result Parser) (f : Parser → Result Parser)
      → ((p q : Parser) → f p ≢ ok q)
      → (q : Parser) → (r >>= f) ≢ ok q
  rejected_bind (ok p) f h q = h p q
  rejected_bind (err e) f h q = λ eq. cc

  -- A line that every parser rejects fails the whole.
  parse_lines_bad :
      (bad : Str) (e : LoadError) (before after : List Str)
      → ((p : Parser) → scan_line fraction p bad ≡ err e)
      → (p q : Parser) → parse_lines fraction p (before ++ bad ∷ after) ≢ ok q
  unfolding parse_lines
  parse_lines_bad bad e [] after h p q = rw (h p) (λ eq. cc)
  parse_lines_bad bad e (line ∷ before) after h p q =
      rejected_bind (scan_line fraction p line)
        (λ r. parse_lines fraction r (before ++ bad ∷ after)) (parse_lines_bad bad e before after h)
        q

  load_bad :
      (r : Result Parser) (failed : Bool) (c : Config)
      → ((q : Parser) → r ≢ ok q)
      → (r >>= finish failed) ≢ ok c
  load_bad (ok q) failed c h = absurd (h q refl)
  load_bad (err e) failed c h = λ eq. cc

scan_lines-join :
    (before : List Str) (line : Str) (after : List Str)
    → All (Without 10) (before ++ line ∷ after)
    → scan_lines (join 10 (before ++ line ∷ after)) ≡ drop_last_blank (before ++ line ∷ after)
unfolding scan_lines
scan_lines-join [] line after h = ap drop_last_blank (split-join 10 line after h)
scan_lines-join (first ∷ before) line after h =
    ap drop_last_blank (split-join 10 first (before ++ line ∷ after) h)

-- A file of lines without newlines, one of which is `history_size: `, a digit, any text, `#`, any
-- text and a last byte that is no space and no quote, is never accepted, whatever the other lines
-- are: the comment counts as part of the number. The two texts are 60000 bytes long at most.
pub load-commented_line :
    (fraction : ℕ → ℕ → ℕ → ℕ) (before after : List Str) (d : ℕ) (s t : Str) (e : ℕ) (c : Config)
    → is_digit d ≡ true
    → (is_solid e ≡ true) × (is_quote e ≡ false)
    → length s + length t ≤ 60000
    → All (Without 10) (before ++ commented_line d s t e ∷ after)
    → load fraction (
        some
          (record { bytes = join 10 (before ++ commented_line d s t e ∷ after); failed = false }))
      ≢ ok c
unfolding load
load-commented_line fraction before after d s t e c digit last short lines =
    load_bad fraction _ false c (λ q. λ parsed.
      parse_lines_bad fraction (commented_line d s t e) invalid_history_size before after
        (λ p. scan_line-commented_line fraction d e s t digit last.0 last.1 p short) new_parser q
        (sym (
            parse_lines-drop_last_blank fraction new_parser
              (before ++ commented_line d s t e ∷ after))
          ∙ ap (parse_lines fraction new_parser)
              (sym (scan_lines-join before (commented_line d s t e) after lines))
          ∙ parsed))
