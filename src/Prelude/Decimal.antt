-- ===== src/Prelude/Decimal.antt =====
-- strconv.ParseUint and FormatUint in base 10, and strings.Split and Join on a one-byte separator.
use mathlib.Core.Logic.{dite}
use mathlib.Core.WellFounded.{Acc}
use native.Mathlib.Decide.{dec_lt}
use whatunga.Prelude.{
  ℕ, zero, suc, length, ◌≤◌, ◌+◌, ◌-◌, ◌*◌, ◌/◌, ◌%◌, ◌^◌, ◌<◌, ◌≡◌, ◌≢◌, refl, sym, ap, ◌∙◌, arith,
  inl, inr,
}
use whatunga.Prelude.{
  Bool, true, ◌&&◌, Option, none, some, [], ◌∷◌, Str, All, ltb, leb, ==_iff, ◌==◌, if◌then◌else◌,
  Bool-cases,
}
use whatunga.Prelude.Order.{lt_wf}

abbrev pub is_digit : ℕ → Bool
is_digit c = leb b'0' c && leb c b'9'

-- The number that digits spell behind `acc`; none where a byte is no digit.
unfoldable pub digits_value : ℕ → Str → Option ℕ
digits_value acc [] = some acc
digits_value acc (c ∷ s) =
    let rest = digits_value (acc * 10 + (c - b'0')) s in if is_digit c then rest else none

in_range : Option ℕ → Option ℕ
in_range none = none
in_range (some n) = if ltb n (2 ^ 64) then some n else none

-- strconv.ParseUint(s, 10, 64); its two kinds of error are one.
unfoldable pub parse_uint : Str → Option ℕ
unfolding in_range
parse_uint [] = none
parse_uint (c ∷ s) = in_range (digits_value 0 (c ∷ s))

pub tenth-lt : (v : ℕ) → 0 < v → v / 10 < v
tenth-lt v h = omega arith

unfoldable pub digit_loop : (v : ℕ) → Str → Acc ◌<◌ v → Str
digit_loop v digits (Acc.intro _ smaller) =
    dite (dec_lt 0 v)
      (λ more. digit_loop (v / 10) ((b'0' + v % 10) ∷ digits) (smaller (v / 10) (tenth-lt v more)))
      (λ _. digits)

-- strconv.FormatUint(n, 10)
unfoldable pub format_uint : ℕ → Str
format_uint n = if n == 0 then b'0' ∷ [] else digit_loop n [] (lt_wf.apply n)

digits_value-digit :
    (v : ℕ) (digits : Str)
    → digits_value (v / 10) ((b'0' + v % 10) ∷ digits) ≡ digits_value v digits
unfolding digits_value
digits_value-digit v digits =
    let sum : v / 10 * 10 + (b'0' + v % 10 - b'0') ≡ v = omega arith in
    let digit : is_digit (b'0' + v % 10) ≡ true = ground arith in
    rw digit (ap (λ (t : ℕ). digits_value t digits) sum)

digit_loop-value :
    (v : ℕ) (digits : Str) (w : Acc ◌<◌ v)
    → digits_value 0 (digit_loop v digits w) ≡ digits_value v digits
unfolding digit_loop
digit_loop-value v digits (Acc.intro _ smaller) = grind (
  arith,
  λ (more : v / 10 < v).
      digit_loop-value (v / 10) ((b'0' + v % 10) ∷ digits) (smaller (v / 10) more),
  digits_value-digit v digits,
)

-- A text whose bytes are digits.
abbrev pub IsDigits : Str → Type 0
IsDigits s = All (λ c. is_digit c ≡ true) s

digit_loop-IsDigits :
    (v : ℕ) (digits : Str) (w : Acc ◌<◌ v) → IsDigits digits → IsDigits (digit_loop v digits w)
unfolding digit_loop
digit_loop-IsDigits v digits (Acc.intro _ smaller) h =
    let digit : is_digit (b'0' + v % 10) ≡ true = ground arith in
    grind (
      arith,
      λ (more : v / 10 < v).
          digit_loop-IsDigits (v / 10) ((b'0' + v % 10) ∷ digits) (smaller (v / 10) more)
            (digit, h),
    )

pub format_uint-IsDigits : (n : ℕ) → IsDigits (format_uint n)
unfolding format_uint
format_uint-IsDigits n = ground (arith, digit_loop-IsDigits n [] (lt_wf.apply n) tt)

parse_uint-some :
    (s : Str) (n : ℕ) → s ≢ [] → digits_value 0 s ≡ some n → n < 2 ^ 64 → parse_uint s ≡ some n
unfolding parse_uint
parse_uint-some [] n ne e h = absurd (ne refl)
parse_uint-some (c ∷ s) n ne e h = rw e (ground arith)

digit_loop_grows : (v c : ℕ) (digits : Str) (w : Acc ◌<◌ v) → digit_loop v (c ∷ digits) w ≢ []
unfolding digit_loop
digit_loop_grows v c digits (Acc.intro _ smaller) = grind (
  arith,
  λ (more : v / 10 < v).
      digit_loop_grows (v / 10) (b'0' + v % 10) (c ∷ digits) (smaller (v / 10) more),
)

digit_loop_pos : (v : ℕ) (w : Acc ◌<◌ v) → 0 < v → digit_loop v [] w ≢ []
unfolding digit_loop
digit_loop_pos v (Acc.intro _ smaller) h = grind (
  arith,
  λ (more : v / 10 < v). digit_loop_grows (v / 10) (b'0' + v % 10) [] (smaller (v / 10) more),
)

digits_value_zero : digits_value 0 (b'0' ∷ []) ≡ some 0
unfolding digits_value
digits_value_zero = refl

pub digits_value-format_uint : (n : ℕ) → digits_value 0 (format_uint n) ≡ some n
unfolding format_uint
digits_value-format_uint n = elim (Bool-cases (n == 0)) [
  | inl none_left ↦
      let zero_n : n ≡ 0 = (==_iff n 0).0 none_left in
      rw none_left (digits_value_zero ∙ ap some (sym zero_n))
  | inr more ↦ rw more (digit_loop-value n [] (lt_wf.apply n) ∙ (unfold digits_value in refl))
]

pub format_uint-ne-nil : (n : ℕ) → format_uint n ≢ []
unfolding format_uint
format_uint-ne-nil n = elim (Bool-cases (n == 0)) [
  | inl none_left ↦ rw none_left (λ e. cc)
  | inr more ↦ rw more (digit_loop_pos n (lt_wf.apply n) (ground arith))
]

pub parse_uint-format_uint : (n : ℕ) → n < 2 ^ 64 → parse_uint (format_uint n) ≡ some n
parse_uint-format_uint n h =
    parse_uint-some _ n (format_uint-ne-nil n) (digits_value-format_uint n) h

power : ℕ → ℕ
power zero = 1
power (suc k) = 10 * power k

length-digit_loop :
    (k v : ℕ) (digits : Str) (w : Acc ◌<◌ v)
    → v < power k
    → length (digit_loop v digits w) ≤ k + length digits
unfolding digit_loop power
length-digit_loop zero v digits (Acc.intro _ smaller) h = grind arith
length-digit_loop (suc k) v digits (Acc.intro _ smaller) h = grind (
  arith,
  λ (more : v / 10 < v).
      length-digit_loop k (v / 10) ((b'0' + v % 10) ∷ digits) (smaller (v / 10) more) (omega arith),
)

power_20 : 2 ^ 64 < power 20
unfolding power
power_20 = omega arith

-- Twenty digits are enough for a word.
pub length-format_uint : (n : ℕ) → n < 2 ^ 64 → length (format_uint n) ≤ 20
unfolding format_uint
length-format_uint n h =
    let small : n < power 20 = omega (arith, power_20) in
    ground (arith, length-digit_loop 20 n [] (lt_wf.apply n) small)
