-- ===== src/Snmp/Integer.antt =====
-- encodeInteger and decodeInteger of internal/snmp/ber.go: minimal two's complement.
pub mod RoundTrip
use mathlib.Core.Logic.{dite}
use mathlib.Core.WellFounded.{Acc}
use whatunga.Prelude.{
  ℕ, ◌+◌, ◌-◌, ◌/◌, ◌%◌, ◌^◌, ◌<◌, bit_and, arith, ◌≡◌, Bool, true, false, not, ◌&&◌, ◌||◌,
}
use whatunga.Prelude.{List, [], ◌∷◌, Str, ltb, ◌==◌, if◌then◌else◌, dec_true}
use whatunga.Prelude.Int.{ℤ, pos, negsuc, signed64}
use whatunga.Prelude.Order.{lt_wf}
use whatunga.Snmp.Ber.{shift-lt, encode_tlv, tag_integer, length_value}

-- The loop's `v`, by its sign and the number under it: `v >> 8` keeps the sign and divides the
-- number by 256, since the shift of a negative number rounds down.
abbrev pub signed : Bool → ℕ → ℤ
signed false m = pos m
signed true m = negsuc m

-- `byte(v)`
abbrev pub low_byte : ℤ → ℕ
low_byte (pos m) = m % 256
low_byte (negsuc m) = 255 - m % 256

-- `v >> 8`
abbrev pub shifted : ℤ → ℤ
shifted (pos m) = pos (m / 2 ^ 8)
shifted (negsuc m) = negsuc (m / 2 ^ 8)

abbrev is_zero : ℤ → Bool
is_zero (pos m) = m == 0
is_zero (negsuc m) = false

abbrev is_minus_one : ℤ → Bool
is_minus_one (pos m) = false
is_minus_one (negsuc m) = m == 0

-- The test that ends the loop, on the byte just put in front and the shifted `v`.
unfoldable pub stops : Bool → ℤ → Bool
stops negative v =
    let top_clear = bit_and (low_byte v) 0x80 == 0 in
    (not negative && is_zero (shifted v) && top_clear)
    || (negative && is_minus_one (shifted v) && not top_clear)

pub goes_on : (negative : Bool) (m : ℕ) → ¬ (stops negative (signed negative m) ≡ true) → 0 < m
unfolding stops
goes_on true m h = ground arith
goes_on false m h = ground arith

unfoldable pub integer_loop : Bool → (m : ℕ) → Str → Acc ◌<◌ m → Str
integer_loop negative m bytes (Acc.intro _ smaller) =
    let v = signed negative m in
    let more = low_byte v ∷ bytes in
    dite (dec_true (stops negative v)) (λ _. more)
      (λ h.
        integer_loop negative (m / 2 ^ 8) more
          (smaller (m / 2 ^ 8) (shift-lt m (goes_on negative m h))))

-- The content of `encodeInteger(n)`.
unfoldable pub integer_bytes : ℤ → Str
integer_bytes (pos m) = if m == 0 then 0 ∷ [] else integer_loop false m [] (lt_wf.apply m)
integer_bytes (negsuc m) = integer_loop true m [] (lt_wf.apply m)

unfoldable pub encode_integer : ℤ → Str
encode_integer n = encode_tlv tag_integer (integer_bytes n)

-- `int64(int8(b))`, as a 64-bit word.
sign_extend : ℕ → ℕ
sign_extend b = if ltb b 0x80 then b else 2 ^ 64 - 256 + b

-- The loop is `v = v<<8 | int64(b)`, as in `decodeLength`.
unfoldable pub decode_integer : Str → ℤ
unfolding sign_extend
decode_integer [] = pos 0
decode_integer (b ∷ bytes) = signed64 (length_value (sign_extend b) bytes)
