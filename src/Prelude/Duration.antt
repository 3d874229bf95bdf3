-- ===== src/Prelude/Duration.antt =====
-- time.ParseDuration. The digits behind a decimal point are scaled by a float64, which is an
-- argument: the value of the digits, ten to their number, and the unit, to nanoseconds.
pub mod RoundTrip
pub mod Fuel
use whatunga.Prelude.{ℕ, zero, suc, ◌+◌, ◌-◌, ◌*◌, ◌/◌, ◌^◌, ◌≤◌, ◌≡◌, ◌≢◌, refl, ◌∙◌, arith}
use whatunga.Prelude.{
  Bool, true, false, not, ◌||◌, Option, none, some, [], ◌∷◌, ◌++◌, Str, codes, str_eq, ltb, ◌==◌,
  if◌then◌else◌, is_nil, length, length-append,
}
use whatunga.Prelude.Int.{ℤ, pos, negsuc, IsInt64}
use whatunga.Prelude.Options.{◌>>=◌}
use whatunga.Prelude.Atoi.{format_int}
use whatunga.Prelude.Decimal.{
  is_digit, digits_value, format_uint, IsDigits, format_uint-IsDigits, format_uint-ne-nil,
  digits_value-format_uint,
}

-- The digits in front, their value, and the rest; none where the value passes 2^63.
unfoldable pub leading_int : ℕ → Str → Option (ℕ × Str)
leading_int x [] = some (x, [])
leading_int x (c ∷ s) =
    let rest = leading_int (x * 10 + (c - b'0')) s in
    if not (is_digit c)
    then some (x, c ∷ s)
    else if ltb (2 ^ 63 / 10) x
    then none
    else if ltb (2 ^ 63) (x * 10 + (c - b'0'))
    then none
    else rest

-- The digits behind the point: their value, ten to the number of the digits that count, the rest.
-- Digits that would pass 2^63 - 1 are skipped.
unfoldable pub leading_fraction : Bool → ℕ → ℕ → Str → ℕ × ℕ × Str
leading_fraction overflow x scale [] = (x, scale, [])
leading_fraction overflow x scale (c ∷ s) =
    let y = x * 10 + (c - b'0') in
    let full = overflow || ltb ((2 ^ 63 - 1) / 10) x || ltb (2 ^ 63) y in
    let rest =
      leading_fraction full (if full then x else y) (if full then scale else scale * 10) s in
    if not (is_digit c) then (x, scale, c ∷ s) else rest

-- The text up to the next point or digit, and the rest.
unfoldable pub unit_of : Str → Str × Str
unit_of [] = ([], [])
unit_of (c ∷ s) =
    let (u, rest) = unit_of s in if c == b'.' || is_digit c then ([], c ∷ s) else (c ∷ u, rest)

-- The map of the units, in nanoseconds; the micro sign is that of Latin or of Greek.
unfoldable pub unit_ns : Str → Option ℕ
unit_ns u =
    if str_eq u (codes "ns")
    then some 1
    else if str_eq u (codes "us")
        || str_eq u (0xc2 ∷ 0xb5 ∷ b's' ∷ [])
        || str_eq u (0xce ∷ 0xbc ∷ b's' ∷ [])
    then some 1000
    else if str_eq u (codes "ms")
    then some 1000000
    else if str_eq u (codes "s")
    then some 1000000000
    else if str_eq u (codes "m")
    then some 60000000000
    else if str_eq u (codes "h")
    then some 3600000000000
    else none

-- The sign, and the test that a positive duration is less than 2^63.
unfoldable pub with_sign : Bool → ℕ → Option ℤ
with_sign true d = some (if d == 0 then pos 0 else negsuc (d - 1))
with_sign false d = if ltb d (2 ^ 63) then some (pos d) else none

module _ (fraction : ℕ → ℕ → ℕ → ℕ) where
  -- What a number with its fraction and unit adds to `d`.
  unfoldable pub add_scaled : ℕ → ℕ → ℕ × ℕ → ℕ → Option ℕ
  add_scaled d v (f, scale) unit =
      if ltb (2 ^ 63 / unit) v
      then none
      else let w = v * unit + (if f == 0 then 0 else fraction f scale unit) in
        if ltb (2 ^ 63) w then none else if ltb (2 ^ 63) (d + w) then none else some (d + w)

  -- The fraction, if there is one; none where neither side of the point has a digit.
  unfoldable pub fraction_of : Bool → Str → Option ((ℕ × ℕ) × Str)
  fraction_of before [] = if before then some ((0, 1), []) else none
  fraction_of before (c ∷ s) =
      let (f, scale, rest) = leading_fraction false 0 1 s in
      let after = not (length rest == length s) in
      if c == b'.'
      then if before || after then some ((f, scale), rest) else none
      else if before
      then some ((0, 1), c ∷ s)
      else none

  -- One number with its unit: the sum with it, and the rest.
  unfoldable pub component : ℕ → Str → Option (ℕ × Str)
  component d s = do
    (v, s1) ← leading_int 0 s
    (f, s2) ← fraction_of (not (length s1 == length s)) s1
    let (u, s3) = unit_of s2
    unit ← (if is_nil u then none else unit_ns u)
    total ← add_scaled d v f unit
    some (total, s3)

  -- A component takes a byte at least.
  unfoldable pub components : ℕ → ℕ → Str → Option ℕ
  components fuel d [] = some d
  components zero d (c ∷ s) = none
  components (suc fuel) d (c ∷ s) = do (d', rest) ← component d (c ∷ s); components fuel d' rest

  unfoldable pub signed_duration : Bool → Str → Option ℤ
  signed_duration negative s =
      if str_eq s (codes "0")
      then some (pos 0)
      else if is_nil s
      then none
      else do d ← components (length s) 0 s; with_sign negative d

  -- The duration in nanoseconds; the kinds of error are one.
  unfoldable pub parse_duration : Str → Option ℤ
  parse_duration [] = none
  parse_duration (c ∷ s) =
      if c == b'-'
      then signed_duration true s
      else if c == b'+'
      then signed_duration false s
      else signed_duration false (c ∷ s)
