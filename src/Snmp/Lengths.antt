-- ===== src/Snmp/Lengths.antt =====
-- The BER length field: its bytes, its round trip, and the word that a decoded length is.
use mathlib.Core.WellFounded.{Acc}
use native.Mathlib.Nat.{pow-suc, mul_comm, mul_assoc, pow-le-pow_right}
use whatunga.Prelude.{
  ℕ, zero, suc, ◌+◌, ◌*◌, ◌/◌, ◌%◌, ◌^◌, ◌≤◌, ◌<◌, bit_and, bit_or, arith, ◌≡◌, ◌≢◌, refl, ap, ◌∙◌,
  inl, inr,
}
use whatunga.Prelude.{
  [], ◌∷◌, ◌++◌, Str, IsBytes, ltb, ltb→lt, le→ltb, length, take, length-append, take-length-append,
  length-take, Bool-cases,
}
use whatunga.Prelude.Bits.{and_not, table, agree_below, bit_or-shifted}
use whatunga.Prelude.Order.{lt_wf}
use whatunga.Snmp.{ok, panic}
use whatunga.Snmp.Ber.{length_loop, encode_length, length_value, decode_length}

-- The number that bytes spell, the high byte first, behind the number `acc`.
abbrev pub be_value : ℕ → Str → ℕ
be_value acc [] = acc
be_value acc (b ∷ bytes) = be_value (acc * 256 + b) bytes

be_value-length_loop :
    (v : ℕ) (bytes : Str) (w : Acc ◌<◌ v) → be_value 0 (length_loop v bytes w) ≡ be_value v bytes
unfolding length_loop
be_value-length_loop v bytes (Acc.intro _ smaller) =
    let next : v / 2 ^ 8 * 256 + v % 256 ≡ v = omega arith in
    grind (
      arith,
      λ (more : v / 2 ^ 8 < v).
          be_value-length_loop (v / 2 ^ 8) (v % 256 ∷ bytes) (smaller (v / 2 ^ 8) more),
      ap (λ (k : ℕ). be_value k bytes) next,
    )

-- A value below 256 ^ k takes k bytes at most, and each of them is a byte.
length_loop_shape :
    (k v : ℕ) (bytes : Str) (w : Acc ◌<◌ v)
    → v < 256 ^ k
    → IsBytes bytes
    → (length (length_loop v bytes w) ≤ k + length bytes) × IsBytes (length_loop v bytes w)
unfolding length_loop
length_loop_shape zero v bytes (Acc.intro _ smaller) h b =
    let e : v ≡ 0 = omega arith in grind arith
length_loop_shape (suc k) v bytes (Acc.intro _ smaller) h b =
    let small : v / 2 ^ 8 < 256 ^ k = omega (arith, pow-suc 256 k) in
    grind (
      arith,
      λ (more : v / 2 ^ 8 < v).
          length_loop_shape k (v / 2 ^ 8) (v % 256 ∷ bytes) (smaller (v / 2 ^ 8) more) small
            (omega arith, b),
    )

length_loop_grows :
    (v : ℕ) (bytes : Str) (w : Acc ◌<◌ v) → length bytes ≤ length (length_loop v bytes w)
unfolding length_loop
length_loop_grows v bytes (Acc.intro _ smaller) = grind (
  arith,
  λ (more : v / 2 ^ 8 < v).
      length_loop_grows (v / 2 ^ 8) (v % 256 ∷ bytes) (smaller (v / 2 ^ 8) more),
)

length_loop_pos :
    (v : ℕ) (bytes : Str) (w : Acc ◌<◌ v) → 0 < v → length bytes < length (length_loop v bytes w)
unfolding length_loop
length_loop_pos v bytes (Acc.intro _ smaller) h = grind (
  arith,
  λ (more : v / 2 ^ 8 < v).
      length_loop_grows (v / 2 ^ 8) (v % 256 ∷ bytes) (smaller (v / 2 ^ 8) more),
)

-- One round of the decoding loop is a step of `be_value`, cut to 64 bits.
shift_in : (w b : ℕ) → b < 256 → bit_or (w % 2 ^ 64 * 2 ^ 8 % 2 ^ 64) b ≡ (w * 256 + b) % 2 ^ 64
shift_in w b h =
    let low : w % 2 ^ 64 * 2 ^ 8 % 2 ^ 64 ≡ w % 2 ^ 56 * 2 ^ 8 = omega arith in
    ap (λ (t : ℕ). bit_or t b) low ∙ bit_or-shifted 8 (w % 2 ^ 56) b h ∙ omega arith

pub length_value-be_value :
    (bytes : Str) (w : ℕ)
    → IsBytes bytes
    → length_value (w % 2 ^ 64) bytes ≡ be_value w bytes % 2 ^ 64
unfolding length_value
length_value-be_value [] w h = refl
length_value-be_value (b ∷ bytes) w h =
    ap (λ (t : ℕ). length_value t bytes) (shift_in w b h.0)
    ∙ length_value-be_value bytes (w * 256 + b) h.1

long_mark : (k : ℕ) → k < 128 → bit_or 0x80 k ≡ 0x80 + k
unfolding agree_below
long_mark = table (λ k. bit_or 0x80 k) (λ k. 0x80 + k) 128 refl

long_test : (k : ℕ) → k < 128 → bit_and (0x80 + k) 0x80 ≡ 0x80
unfolding agree_below
long_test = table (λ k. bit_and (0x80 + k) 0x80) (λ k. 0x80) 128 refl

short_test : (k : ℕ) → k < 128 → bit_and k 0x80 ≡ 0
unfolding agree_below
short_test = table (λ k. bit_and k 0x80) (λ k. 0) 128 refl

-- A long form over `bytes`, at least one and fewer than 128, is read as the number that they spell,
-- cut to 64 bits.
pub decode_length_long :
    (bytes rest : Str)
    → IsBytes bytes
    → 0 < length bytes
    → length bytes < 128
    → decode_length ((0x80 + length bytes) ∷ (bytes ++ rest))
      ≡ ok (be_value 0 bytes % 2 ^ 64, 1 + length bytes)
unfolding decode_length
decode_length_long bytes rest h pos small =
    let k = length bytes in
    let value : length_value 0 bytes ≡ be_value 0 bytes % 2 ^ 64 =
      length_value-be_value bytes 0 h in
    ground
      (arith, long_test k small, length-append bytes rest, take-length-append bytes rest, value)

pub decode_length_short : (n : ℕ) (rest : Str) → n < 128 → decode_length (n ∷ rest) ≡ ok (n, 1)
unfolding decode_length
decode_length_short n rest h = ground (arith, short_test n h)

abbrev long_bytes : ℕ → Str
long_bytes n = length_loop n [] (lt_wf.apply n)

encode_length_long :
    (n : ℕ)
    → 0x80 ≤ n
    → n < 2 ^ 64
    → (encode_length n ≡ (0x80 + length (long_bytes n)) ∷ long_bytes n)
      × (0 < length (long_bytes n))
      × (length (long_bytes n) ≤ 8)
      × IsBytes (long_bytes n)
      × (be_value 0 (long_bytes n) ≡ n)
unfolding encode_length
encode_length_long n lo hi =
    let (few, bytes) = length_loop_shape 8 n [] (lt_wf.apply n) hi tt in
    let some_byte = length_loop_pos n [] (lt_wf.apply n) (omega arith) in
    let k = length (long_bytes n) in
    let mark : bit_or 0x80 k % 256 ≡ 0x80 + k = omega (arith, long_mark k (omega arith)) in
    (
      rw (le→ltb n 0x80 lo) (ap (λ (t : ℕ). t ∷ long_bytes n) mark),
      omega arith,
      omega arith,
      bytes,
      be_value-length_loop n [] (lt_wf.apply n),
    )

-- decodeLength reads back every length that encodeLength wrote, with the size of its field, and
-- whatever follows it.
pub decode_length-encode_length :
    (n : ℕ) (rest : Str)
    → n < 2 ^ 64
    → decode_length (encode_length n ++ rest) ≡ ok (n, length (encode_length n))
decode_length-encode_length n rest h = elim (Bool-cases (ltb n 0x80)) [
  | inl short ↦
      let small = ltb→lt n 0x80 short in
      let e : encode_length n ≡ n ∷ [] =
        (unfold encode_length in rw short (ap (λ (t : ℕ). t ∷ []) (omega arith))) in
      rw e (decode_length_short n rest small)
  | inr long ↦
      let (e, pos, few, bytes, value) = encode_length_long n (ground arith) h in
      rw e (
        decode_length_long (long_bytes n) rest bytes pos (omega arith)
        ∙ ap (λ (t : ℕ). ok (t, 1 + length (long_bytes n))) (omega (arith, value))
        ∙ ap (λ (t : ℕ). ok (n, t)) (omega arith))
]

pub length-encode_length :
    (n : ℕ) → n < 2 ^ 64 → (0 < length (encode_length n)) × (length (encode_length n) ≤ 9)
length-encode_length n h = elim (Bool-cases (ltb n 0x80)) [
  | inl short ↦ (unfold encode_length in ground arith)
  | inr long ↦
      let (e, pos, few, bytes, value) = encode_length_long n (ground arith) h in rw e (omega arith)
]

be_value-lt :
    (bytes : Str) (acc k : ℕ)
    → IsBytes bytes
    → acc < k
    → be_value acc bytes < k * 256 ^ length bytes
be_value-lt [] acc k h lt = omega arith
be_value-lt (b ∷ bytes) acc k h lt =
    let step = be_value-lt bytes (acc * 256 + b) (k * 256) h.1 (omega arith) in
    rw (pow-suc, mul_comm (256 ^ length bytes) 256, ← mul_assoc) step

take-IsBytes : (n : ℕ) (s : Str) → IsBytes s → IsBytes (take n s)
take-IsBytes zero s h = tt
take-IsBytes (suc n) [] h = tt
take-IsBytes (suc n) (b ∷ s) h = (h.0, take-IsBytes n s h.1)

-- A decoded length takes its field from the front: at least a byte, and all of it there.
pub decode_length_takes :
    (s : Str) (w size : ℕ) → decode_length s ≡ ok (w, size) → (1 ≤ size) × (size ≤ length s)
unfolding decode_length
decode_length_takes [] w size e = cc
decode_length_takes (first ∷ rest) w size e = ground arith

short_low : (b : ℕ) → b < 0x88 → bit_and b 0x80 ≡ b / 128 * 128
unfolding agree_below
short_low = table (λ b. bit_and b 0x80) (λ b. b / 128 * 128) 0x88 refl

-- A length field whose first byte is below 0x88 holds a length below 2 ^ 56.
pub decode_length_small :
    (first : ℕ) (rest : Str) (w size : ℕ)
    → IsBytes rest
    → first < 0x88
    → decode_length (first ∷ rest) ≡ ok (w, size)
    → (w < 2 ^ 56) × (size ≤ 8)
unfolding decode_length
decode_length_small first rest w size h small e =
    let n = and_not first 0x80 in
    let mark = short_low first small in
    let few : n ≤ first % 128 = omega (arith, mark) in
    let some_bytes = take n rest in
    let short : length some_bytes ≤ n = omega (arith, length-take n rest) in
    let value : length_value 0 some_bytes ≡ be_value 0 some_bytes % 2 ^ 64 =
      length_value-be_value some_bytes 0 (take-IsBytes n rest h) in
    let below : be_value 0 some_bytes < 1 * 256 ^ length some_bytes =
      be_value-lt some_bytes 0 1 (take-IsBytes n rest h) (omega arith) in
    elim (Bool-cases (ltb first 128)) [
      | inl low ↦
          let test : bit_and first 0x80 ≡ 0 = omega (arith, mark, ltb→lt first 128 low) in
          ground (arith, test)
      | inr high ↦
          let seven : length some_bytes ≤ 7 = ground arith in
          let cap : 256 ^ length some_bytes ≤ 256 ^ 7 = pow-le-pow_right (omega arith) seven in
          let fits : length_value 0 some_bytes < 2 ^ 56 = omega (arith, value, below, cap) in
          let test : bit_and first 0x80 ≡ 128 = ground (arith, mark) in ground (arith, test, fits)
    ]

pub decode_length-ne-panic : (s : Str) → decode_length s ≢ panic
unfolding decode_length
decode_length-ne-panic [] e = cc
decode_length-ne-panic (first ∷ rest) e = ground arith
