-- ===== src/Snmp/Integer/RoundTrip.antt =====
-- decodeInteger undoes encodeInteger on every int64.
use mathlib.Core.Logic.{dif_pos, dif_neg}
use mathlib.Core.WellFounded.{Acc}
use native.Mathlib.Nat.{pow-suc, pow-le-pow_right, one-le-pow}
use whatunga.Prelude.{
  ℕ, zero, suc, ◌+◌, ◌-◌, ◌*◌, ◌/◌, ◌%◌, ◌^◌, ◌≤◌, ◌<◌, bit_and, arith, ◌≡◌, refl, sym, ap, ◌∙◌,
  inl, inr,
}
use whatunga.Prelude.{
  Bool, true, false, not, [], ◌∷◌, ◌++◌, Str, IsBytes, ltb, ltb→lt, lt→ltb, le→ltb, ◌==◌, ==_iff,
  length, dec_true, Bool-cases,
}
use whatunga.Prelude.Bits.{table, agree_below}
use whatunga.Prelude.Order.{lt_wf}
use whatunga.Prelude.Int.{ℤ, pos, negsuc, signed64, IsInt64}
use whatunga.Snmp.{Result, ok, ◌>>=◌}
use whatunga.Snmp.Ber.{Tlv, decode_tlv, tag_integer, length_value}
use whatunga.Snmp.Lengths.{be_value, length_value-be_value}
use whatunga.Snmp.Tlvs.{decode_tlv-encode_tlv}
use whatunga.Snmp.Integer.{
  signed, low_byte, stops, integer_loop, integer_bytes, encode_integer, decode_integer,
}

top_bit : (b : ℕ) → b < 256 → bit_and b 0x80 ≡ b / 128 * 128
unfolding agree_below
top_bit = table (λ b. bit_and b 0x80) (λ b. b / 128 * 128) 256 refl

-- Where the loop ends the number fits into the free seven bits, and else it does not.
stops_iff : (negative : Bool) (m : ℕ) → stops negative (signed negative m) ≡ ltb m 128
unfolding stops
stops_iff true m = ground (arith, top_bit (255 - m % 256))
stops_iff false m = ground (arith, top_bit (m % 256))

be_value-acc : (bytes : Str) (a : ℕ) → be_value a bytes ≡ a * 256 ^ length bytes + be_value 0 bytes
be_value-acc [] a = omega arith
be_value-acc (b ∷ bytes) a =
    be_value-acc bytes (a * 256 + b) ∙ rw (be_value-acc bytes (0 * 256 + b), pow-suc) (omega arith)

abbrev starts_low : Str → Bool
starts_low [] = true
starts_low (b ∷ bytes) = ltb b 128

-- What holds of the bytes that the loop makes of a number below 128 * 256 ^ k.
record Shape (negative : Bool) (k : ℕ) (before bytes : Str) : Type 0 where
  few : length bytes ≤ suc k + length before
  more : length before < length bytes
  are_bytes : IsBytes bytes
  sign : starts_low bytes ≡ not negative

low_byte-lt : (negative : Bool) (m : ℕ) → low_byte (signed negative m) < 256
low_byte-lt true m = omega arith
low_byte-lt false m = omega arith

low_byte-sign :
    (negative : Bool) (m : ℕ) → m < 128 → ltb (low_byte (signed negative m)) 128 ≡ not negative
low_byte-sign true m h = ground arith
low_byte-sign false m h = ground arith

loop_stop :
    (negative : Bool) (m : ℕ) (before : Str) (w : Acc ◌<◌ m)
    → m < 128
    → integer_loop negative m before w ≡ low_byte (signed negative m) ∷ before
unfolding integer_loop
loop_stop negative m before (Acc.intro _ smaller) h =
    let last : stops negative (signed negative m) ≡ true = stops_iff negative m ∙ lt→ltb m 128 h in
    dif_pos (dec_true _) (hlevel) last _ _

loop_go :
    (negative : Bool) (m : ℕ) (before : Str) (w : Acc ◌<◌ m)
    → 128 ≤ m
    → (w' : Acc ◌<◌ (m / 2 ^ 8)) × (integer_loop negative m before w
        ≡ integer_loop negative (m / 2 ^ 8) (low_byte (signed negative m) ∷ before) w')
unfolding integer_loop
loop_go negative m before (Acc.intro _ smaller) h =
    let on : stops negative (signed negative m) ≡ false = stops_iff negative m ∙ le→ltb m 128 h in
    (smaller (m / 2 ^ 8) _, dif_neg (dec_true _) (λ e. cc) _ _)

loop-Shape :
    (negative : Bool) (k m : ℕ) (before : Str) (w : Acc ◌<◌ m)
    → m < 128 * 256 ^ k
    → IsBytes before
    → Shape negative k before (integer_loop negative m before w)
loop-Shape negative zero m before w h b =
    let small : m < 128 = omega arith in
    rw (loop_stop negative m before w small) (record {
      few = omega arith;
      more = omega arith;
      are_bytes = (low_byte-lt negative m, b);
      sign = low_byte-sign negative m small;
    })
loop-Shape negative (suc k) m before w h b = elim (Bool-cases (ltb m 128)) [
  | inl low ↦
      let small : m < 128 = ltb→lt m 128 low in
      rw (loop_stop negative m before w small) (record {
        few = omega arith;
        more = omega arith;
        are_bytes = (low_byte-lt negative m, b);
        sign = low_byte-sign negative m small;
      })
  | inr high ↦
      let (w', e) = loop_go negative m before w (ground arith) in
      let next : m / 2 ^ 8 < 128 * 256 ^ k = omega (arith, pow-suc 256 k) in
      let s =
        loop-Shape negative k (m / 2 ^ 8) (low_byte (signed negative m) ∷ before) w' next
          (low_byte-lt negative m, b) in
      rw e (record {
        few = omega (arith, s.few);
        more = omega (arith, s.more);
        are_bytes = s.are_bytes;
        sign = s.sign;
      })
]

pos_value :
    (k m : ℕ) (before : Str) (w : Acc ◌<◌ m)
    → m < 128 * 256 ^ k
    → be_value 0 (integer_loop false m before w) ≡ be_value m before
pos_value zero m before w h =
    rw (loop_stop false m before w (omega arith)) (ap (λ (t : ℕ). be_value t before) (omega arith))
pos_value (suc k) m before w h = elim (Bool-cases (ltb m 128)) [
  | inl low ↦
      let small = ltb→lt m 128 low in
      rw (loop_stop false m before w small) (ap (λ (t : ℕ). be_value t before) (omega arith))
  | inr high ↦
      let (w', e) = loop_go false m before w (ground arith) in
      let next : m / 2 ^ 8 < 128 * 256 ^ k = omega (arith, pow-suc 256 k) in
      rw e (
        pos_value k (m / 2 ^ 8) (m % 256 ∷ before) w' next
        ∙ ap (λ (t : ℕ). be_value t before) (omega arith))
]

-- The bytes of -(m + 1) spell its two's complement, over as many bytes as there are.
abbrev Complements : ℕ → Str → Str → Type 0
Complements m before bytes =
    be_value 0 bytes + (m + 1) * 256 ^ length before ≡ 256 ^ length bytes + be_value 0 before

last_Complements :
    (m : ℕ) (before : Str) → m < 256 → Complements m before ((255 - m % 256) ∷ before)
last_Complements m before h =
    let p : ℕ = 256 ^ length before in
    let d : ℕ = 255 - m % 256 in
    let sum : d + (m + 1) ≡ 256 = omega arith in
    rw (be_value-acc before (0 * 256 + d), pow-suc) (omega (arith, ap (λ (t : ℕ). t * p) sum))

step_Complements :
    (m : ℕ) (before bytes : Str)
    → Complements (m / 2 ^ 8) ((255 - m % 256) ∷ before) bytes
    → Complements m before bytes
step_Complements m before bytes h =
    let p : ℕ = 256 ^ length before in
    let d : ℕ = 255 - m % 256 in
    let sum : (m / 2 ^ 8 + 1) * 256 ≡ m + 1 + d = omega arith in
    let spread : (m / 2 ^ 8 + 1) * 256 ^ length (d ∷ before) ≡ (m / 2 ^ 8 + 1) * 256 * p =
      omega (arith, ap (λ (t : ℕ). (m / 2 ^ 8 + 1) * t) (pow-suc 256 (length before))) in
    omega (arith, h, spread, be_value-acc before (0 * 256 + d), ap (λ (t : ℕ). t * p) sum)

neg_value :
    (k m : ℕ) (before : Str) (w : Acc ◌<◌ m)
    → m < 128 * 256 ^ k
    → Complements m before (integer_loop true m before w)
neg_value zero m before w h =
    rw (loop_stop true m before w (omega arith)) (last_Complements m before (omega arith))
neg_value (suc k) m before w h = elim (Bool-cases (ltb m 128)) [
  | inl low ↦
      let small = ltb→lt m 128 low in
      rw (loop_stop true m before w small) (last_Complements m before (omega arith))
  | inr high ↦
      let (w', e) = loop_go true m before w (ground arith) in
      let next : m / 2 ^ 8 < 128 * 256 ^ k = omega (arith, pow-suc 256 k) in
      rw e
        (step_Complements m before _ (neg_value k (m / 2 ^ 8) ((255 - m % 256) ∷ before) w' next))
]

-- The sign extension of a first byte `b`, over `p`, against the same bytes without it.
wrap_same :
    (b p v : ℕ)
    → p ≤ 256 ^ 7
    → 1 ≤ p
    → ((2 ^ 64 - 256 + b) * p + v) % 2 ^ 64 ≡ ((0 * 256 + b) * p + v + 2 ^ 64 - p * 256) % 2 ^ 64
wrap_same b p v cap one = omega arith

-- Reading bytes that begin with a clear top bit, or with a set one.
decode_low :
    (bytes : Str)
    → IsBytes bytes
    → 0 < length bytes
    → starts_low bytes ≡ true
    → decode_integer bytes ≡ signed64 (be_value 0 bytes % 2 ^ 64)
unfolding decode_integer
decode_low [] h more low = absurd (omega arith)
decode_low (b ∷ bytes) h more low = rw low (
    ap signed64 (
      ap (λ (t : ℕ). length_value t bytes) (omega arith)
      ∙ length_value-be_value bytes b h.1
      ∙ ap (λ (t : ℕ). be_value t bytes % 2 ^ 64) (omega arith)))

decode_high :
    (bytes : Str)
    → IsBytes bytes
    → 0 < length bytes
    → starts_low bytes ≡ false
    → (length bytes ≤ 8)
    → decode_integer bytes ≡ signed64 ((be_value 0 bytes + 2 ^ 64 - 256 ^ length bytes) % 2 ^ 64)
unfolding decode_integer
decode_high [] h more high few = absurd (omega arith)
decode_high (b ∷ bytes) h more high few =
    let p : ℕ = 256 ^ length bytes in
    let w : ℕ = 2 ^ 64 - 256 + b in
    let word : w ≡ w % 2 ^ 64 = omega (arith, h.0) in
    let seven : length bytes ≤ 7 = omega arith in
    let cap : p ≤ 256 ^ 7 = pow-le-pow_right (omega arith) seven in
    let one : 1 ≤ p = one-le-pow (length bytes) 256 (omega arith) in
    let spelled : be_value w bytes ≡ w * p + be_value 0 bytes = be_value-acc bytes w in
    let whole : be_value (0 * 256 + b) bytes ≡ (0 * 256 + b) * p + be_value 0 bytes =
      be_value-acc bytes (0 * 256 + b) in
    let same : be_value w bytes % 2 ^ 64
        ≡ (be_value (0 * 256 + b) bytes + 2 ^ 64 - 256 ^ suc (length bytes)) % 2 ^ 64 =
      rw (spelled, whole, pow-suc 256 (length bytes)) (wrap_same b p (be_value 0 bytes) cap one) in
    rw high (
      ap signed64
        (ap (λ (t : ℕ). length_value t bytes) word ∙ length_value-be_value bytes w h.1 ∙ same))

decode_zero : decode_integer (0 ∷ []) ≡ pos 0
unfolding decode_integer length_value
decode_zero = refl

length_bound : (m : ℕ) → m < 2 ^ 63 → m < 128 * 256 ^ 7
length_bound m h = omega arith

-- decodeInteger undoes encodeInteger on every int64, negative ones included.
pub decode_integer-integer_bytes : (n : ℤ) → IsInt64 n → decode_integer (integer_bytes n) ≡ n
unfolding integer_bytes
decode_integer-integer_bytes (pos m) h = elim (Bool-cases (m == 0)) [
  | inl none_set ↦ rw none_set (decode_zero ∙ ap pos (sym ((==_iff m 0).0 none_set)))
  | inr more ↦
      let s = loop-Shape false 7 m [] (lt_wf.apply m) (length_bound m h) tt in
      rw more (
        decode_low _ s.are_bytes s.more s.sign
        ∙ ap (λ (t : ℕ). signed64 (t % 2 ^ 64))
            (pos_value 7 m [] (lt_wf.apply m) (length_bound m h))
        ∙ ground arith)
]
decode_integer-integer_bytes (negsuc m) h =
    let s = loop-Shape true 7 m [] (lt_wf.apply m) (length_bound m h) tt in
    let c = neg_value 7 m [] (lt_wf.apply m) (length_bound m h) in
    let bytes = integer_loop true m [] (lt_wf.apply m) in
    let cap : 256 ^ length bytes ≤ 256 ^ 8 = pow-le-pow_right (omega arith) s.few in
    let word : (be_value 0 bytes + 2 ^ 64 - 256 ^ length bytes) % 2 ^ 64 ≡ 2 ^ 64 - (m + 1) =
      omega (arith, c, cap) in
    decode_high bytes s.are_bytes s.more s.sign s.few
    ∙ ap (λ (t : ℕ). signed64 t) word
    ∙ ground arith

-- The bytes of an int64: one to eight.
pub length-integer_bytes :
    (n : ℤ) → IsInt64 n → (1 ≤ length (integer_bytes n)) × (length (integer_bytes n) ≤ 8)
unfolding integer_bytes
length-integer_bytes (pos m) h =
    let s = loop-Shape false 7 m [] (lt_wf.apply m) (length_bound m h) tt in
    ground (arith, s.few, s.more)
length-integer_bytes (negsuc m) h =
    let s = loop-Shape true 7 m [] (lt_wf.apply m) (length_bound m h) tt in
    omega (arith, s.few, s.more)

-- What encodeInteger writes of an int64 is decoded, by decodeTLV and decodeInteger, to the tag
-- INTEGER and the same number, with whatever follows left alone.
pub decode_integer-encode_integer :
    (n : ℤ) (rest : Str)
    → IsInt64 n
    → let read : Tlv → Result (ℕ × ℤ) = λ t. ok (t.tag, decode_integer t.content) in
      (decode_tlv (encode_integer n ++ rest) >>= read) ≡ ok (tag_integer, n)
unfolding encode_integer
decode_integer-encode_integer n rest h =
    rw
      (decode_tlv-encode_tlv tag_integer (integer_bytes n) rest
        (omega (arith, length-integer_bytes n h)))
      (ap (λ k. ok (tag_integer, k)) (decode_integer-integer_bytes n h))
