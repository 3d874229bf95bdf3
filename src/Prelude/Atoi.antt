-- ===== src/Prelude/Atoi.antt =====
-- strconv.Atoi and ParseInt(s, 10, 64), which agree on a 64-bit target, and the %d of fmt.
use whatunga.Prelude.{ℕ, zero, suc, ◌+◌, ◌-◌, ◌*◌, ◌^◌, ◌≡◌, ◌≢◌, refl, ◌∙◌, arith}
use whatunga.Prelude.{
  Bool, true, false, Option, none, some, [], ◌∷◌, ◌++◌, Str, ltb, ◌==◌, if◌then◌else◌,
}
use whatunga.Prelude.Int.{ℤ, pos, negsuc, IsInt64}
use whatunga.Prelude.Decimal.{
  is_digit, digits_value, parse_uint, format_uint, IsDigits, format_uint-IsDigits,
  format_uint-ne-nil, parse_uint-format_uint,
}

-- The sign and the range; its two kinds of error are one.
unfoldable pub with_sign : Bool → Option ℕ → Option ℤ
with_sign negative none = none
with_sign false (some n) = if ltb n (2 ^ 63) then some (pos n) else none
with_sign true (some zero) = some (pos 0)
with_sign true (some (suc n)) = if ltb n (2 ^ 63) then some (negsuc n) else none

unfoldable pub atoi : Str → Option ℤ
unfolding with_sign
atoi [] = none
atoi (c ∷ s) =
    if c == b'-'
    then with_sign true (parse_uint s)
    else if c == b'+'
    then with_sign false (parse_uint s)
    else with_sign false (parse_uint (c ∷ s))

unfoldable pub format_int : ℤ → Str
format_int (pos n) = format_uint n
format_int (negsuc n) = b'-' ∷ format_uint (suc n)

atoi-IsDigits : (s : Str) → IsDigits s → s ≢ [] → atoi s ≡ with_sign false (parse_uint s)
unfolding atoi
atoi-IsDigits [] h ne = absurd (ne refl)
atoi-IsDigits (c ∷ s) h ne =
    let digit : is_digit c ≡ true = h.0 in
    let no_minus : (c == b'-') ≡ false = ground arith in
    let no_plus : (c == b'+') ≡ false = ground arith in rw (no_minus, no_plus) refl

-- Atoi reads back every int64 that was written in decimal.
pub atoi-format_int : (n : ℤ) → IsInt64 n → atoi (format_int n) ≡ some n
unfolding format_int
atoi-format_int (pos n) h =
    atoi-IsDigits (format_uint n) (format_uint-IsDigits n) (format_uint-ne-nil n)
    ∙ rw (parse_uint-format_uint n (omega arith)) (unfold with_sign in ground arith)
atoi-format_int (negsuc n) h =
    unfold atoi in rw (parse_uint-format_uint (suc n) (omega arith)) (ground arith)

digits_value_bad :
    (acc : ℕ) (s : Str) (c : ℕ) (t : Str)
    → is_digit c ≡ false
    → digits_value acc (s ++ c ∷ t) ≡ none
unfolding digits_value
digits_value_bad acc [] c t bad = rw bad refl
digits_value_bad acc (d ∷ s) c t bad =
    ground (arith, digits_value_bad (acc * 10 + (d - b'0')) s c t bad)

parse_uint_bad : (s : Str) (c : ℕ) (t : Str) → is_digit c ≡ false → parse_uint (s ++ c ∷ t) ≡ none
unfolding parse_uint
parse_uint_bad [] c t bad = rw (digits_value_bad 0 [] c t bad) refl
parse_uint_bad (d ∷ s) c t bad = rw (digits_value_bad 0 (d ∷ s) c t bad) refl

-- A text with a byte that is no digit behind its first is no number.
pub atoi_bad :
    (d : ℕ) (s : Str) (c : ℕ) (t : Str) → is_digit c ≡ false → atoi (d ∷ (s ++ c ∷ t)) ≡ none
unfolding atoi
atoi_bad d s c t bad = rw (parse_uint_bad s c t bad, parse_uint_bad (d ∷ s) c t bad) (ground arith)
