-- ===== src/Snmp/Ber.antt =====
-- internal/snmp/ber.go. An `int` of the source is a 64-bit word here, read by `signed64` where its
-- sign matters; a byte slice is the list of its bytes.
use mathlib.Core.Logic.{dite}
use mathlib.Core.WellFounded.{Acc}
use native.Mathlib.Decide.{dec_lt}
use whatunga.Prelude.{ℕ, ◌+◌, ◌-◌, ◌*◌, ◌/◌, ◌%◌, ◌^◌, ◌<◌, bit_and, bit_or, arith}
use whatunga.Prelude.{◌||◌, [], ◌∷◌, ◌++◌, Str, ltb, ◌==◌, if◌then◌else◌, length, take, drop}
use whatunga.Prelude.Int.{pos, signed64, ltb_ℤ}
use whatunga.Prelude.Bits.{and_not}
use whatunga.Prelude.Order.{lt_wf}
use whatunga.Snmp.{
  Result, ok, err, panic, ◌>>=◌, truncated_length, truncated_long_form, truncated_tlv,
  truncated_content,
}

abbrev pub tag_integer : ℕ
tag_integer = 0x02

abbrev pub tag_octet_str : ℕ
tag_octet_str = 0x04

abbrev pub tag_null : ℕ
tag_null = 0x05

abbrev pub tag_oid : ℕ
tag_oid = 0x06

abbrev pub tag_sequence : ℕ
tag_sequence = 0x30

abbrev pub tag_counter32 : ℕ
tag_counter32 = 0x41

abbrev pub tag_gauge32 : ℕ
tag_gauge32 = 0x42

abbrev pub tag_time_ticks : ℕ
tag_time_ticks = 0x43

abbrev pub tag_counter64 : ℕ
tag_counter64 = 0x46

abbrev pub tag_no_such_object : ℕ
tag_no_such_object = 0x80

abbrev pub tag_no_such_instance : ℕ
tag_no_such_instance = 0x81

abbrev pub tag_end_of_mib_view : ℕ
tag_end_of_mib_view = 0x82

abbrev pub tag_get_request : ℕ
tag_get_request = 0xa0

abbrev pub tag_get_next_request : ℕ
tag_get_next_request = 0xa1

abbrev pub tag_get_response : ℕ
tag_get_response = 0xa2

pub shift-lt : (v : ℕ) → 0 < v → v / 2 ^ 8 < v
shift-lt v h = omega arith

-- `for v := n; v > 0; v >>= 8 { lenBytes = append([]byte{byte(v)}, lenBytes...) }`
unfoldable pub length_loop : (v : ℕ) → Str → Acc ◌<◌ v → Str
length_loop v bytes (Acc.intro _ smaller) =
    dite (dec_lt 0 v)
      (λ more. length_loop (v / 2 ^ 8) (v % 256 ∷ bytes) (smaller (v / 2 ^ 8) (shift-lt v more)))
      (λ _. bytes)

long_form : Str → Str
long_form bytes = bit_or 0x80 (length bytes) % 256 ∷ bytes

unfoldable pub encode_length : ℕ → Str
unfolding long_form
encode_length n = if ltb n 0x80 then n % 256 ∷ [] else long_form (length_loop n [] (lt_wf.apply n))

-- `length = length<<8 | int(data[1+i])`, over the bytes that the loop reads.
unfoldable pub length_value : ℕ → Str → ℕ
length_value w [] = w
length_value w (b ∷ bytes) = length_value (bit_or (w * 2 ^ 8 % 2 ^ 64) b) bytes

-- The length, as a 64-bit word, and the number of bytes that its field occupies.
unfoldable pub decode_length : Str → Result (ℕ × ℕ)
decode_length [] = err truncated_length
decode_length (first ∷ rest) =
    let n = and_not first 0x80 in
    if bit_and first 0x80 == 0
    then ok (first, 1)
    else if n == 0 || ltb (length (first ∷ rest)) (1 + n)
    then err truncated_long_form
    else ok (length_value 0 (take n rest), 1 + n)

unfoldable pub encode_tlv : ℕ → Str → Str
encode_tlv tag content = (tag ∷ encode_length (length content)) ++ content

pub record Tlv : Type 0 where
  pub tag : ℕ
  pub content : Str
  pub consumed : ℕ

-- `data[low:high]`, whose bounds are ints: it panics unless 0 <= low <= high. The caller has made
-- sure that `high` is at most the length.
unfoldable pub slice : Str → ℕ → ℕ → (Str → Result Tlv) → Result Tlv
slice bytes low high k =
    if ltb_ℤ (signed64 high) (pos low) then panic else k (take (high - low) (drop low bytes))

-- `start` is `1 + lenSize`, and `high` the wrapped sum `start + length`.
unfoldable pub cut_content : Str → ℕ → ℕ → ℕ → Result Tlv
unfolding slice
cut_content bytes tag start high =
    if ltb_ℤ (pos (length bytes)) (signed64 high)
    then err truncated_content
    else slice bytes start high
        (λ content. ok (record { tag = tag; content = content; consumed = high }))

unfoldable pub decode_tlv : Str → Result Tlv
unfolding cut_content
decode_tlv [] = err truncated_tlv
decode_tlv (tag ∷ []) = err truncated_tlv
decode_tlv (tag ∷ b ∷ rest) = do
  (w, size) ← decode_length (b ∷ rest)
  cut_content (tag ∷ b ∷ rest) tag (1 + size) ((1 + size + w) % 2 ^ 64)
