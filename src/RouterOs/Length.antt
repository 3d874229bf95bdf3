-- ===== src/RouterOs/Length.antt =====
-- writeLength and readLength: the bytes in plain arithmetic, the round trip, and how far a read goes.
use whatunga.Prelude.{ℕ, ◌+◌, ◌*◌, ◌/◌, ◌%◌, ◌^◌, ◌≤◌, ◌<◌, bit_and, bit_or, ◌≡◌, refl, ap, ◌∙◌}
use whatunga.Prelude.{[], ◌∷◌, ◌++◌, Str, ltb, if◌then◌else◌, length, arith}
use whatunga.Prelude.{
  length-append, length-take, length-drop, take-append-drop, take-length-append, drop-length-append,
}
use whatunga.Prelude.Bits.{and_not, table, agree_below, bit_or-shifted}
use whatunga.RouterOs.{ok, read_full, bind-eq-ok}
use whatunga.RouterOs.Protocol.{
  length_bytes, read_length, read_length_after, read_rest, join2, join3, join4, uint32_of,
}

-- What the masks do to the first byte, on each of its forms.
low_form : (x : ℕ) → x < 128 → bit_and x 0x80 ≡ 0
unfolding agree_below
low_form = table (λ x. bit_and x 0x80) (λ x. 0) 128 refl

set_bit15 : (x : ℕ) → x < 0x4000 → bit_or x 0x8000 ≡ x + 0x8000
unfolding agree_below
set_bit15 = table (λ x. bit_or x 0x8000) (λ x. x + 0x8000) 0x4000 refl

set_c0 : (x : ℕ) → x < 32 → bit_or x 0xc0 ≡ x + 0xc0
unfolding agree_below
set_c0 = table (λ x. bit_or x 0xc0) (λ x. x + 0xc0) 32 refl

set_e0 : (x : ℕ) → x < 16 → bit_or x 0xe0 ≡ x + 0xe0
unfolding agree_below
set_e0 = table (λ x. bit_or x 0xe0) (λ x. x + 0xe0) 16 refl

-- The tests of the switch on `x + p`, where `p` is the mark of a form and `x` its free bits.
abbrev Marked : ℕ → ℕ → ℕ → ℕ → Type 0
Marked bound p mask value = (x : ℕ) → x < bound → bit_and (x + p) mask ≡ value

two_80 : Marked 64 0x80 0x80 0x80
unfolding agree_below
two_80 = table (λ x. bit_and (x + 0x80) 0x80) (λ x. 0x80) 64 refl

two_c0 : Marked 64 0x80 0xc0 0x80
unfolding agree_below
two_c0 = table (λ x. bit_and (x + 0x80) 0xc0) (λ x. 0x80) 64 refl

three_80 : Marked 32 0xc0 0x80 0x80
unfolding agree_below
three_80 = table (λ x. bit_and (x + 0xc0) 0x80) (λ x. 0x80) 32 refl

three_c0 : Marked 32 0xc0 0xc0 0xc0
unfolding agree_below
three_c0 = table (λ x. bit_and (x + 0xc0) 0xc0) (λ x. 0xc0) 32 refl

three_e0 : Marked 32 0xc0 0xe0 0xc0
unfolding agree_below
three_e0 = table (λ x. bit_and (x + 0xc0) 0xe0) (λ x. 0xc0) 32 refl

four_80 : Marked 16 0xe0 0x80 0x80
unfolding agree_below
four_80 = table (λ x. bit_and (x + 0xe0) 0x80) (λ x. 0x80) 16 refl

four_c0 : Marked 16 0xe0 0xc0 0xc0
unfolding agree_below
four_c0 = table (λ x. bit_and (x + 0xe0) 0xc0) (λ x. 0xc0) 16 refl

four_e0 : Marked 16 0xe0 0xe0 0xe0
unfolding agree_below
four_e0 = table (λ x. bit_and (x + 0xe0) 0xe0) (λ x. 0xe0) 16 refl

four_f0 : Marked 16 0xe0 0xf0 0xe0
unfolding agree_below
four_f0 = table (λ x. bit_and (x + 0xe0) 0xf0) (λ x. 0xe0) 16 refl

join2_lem : (x b : ℕ) (s : Str) → b < 256 → join2 x (b ∷ s) ≡ x * 256 + b
unfolding join2
join2_lem x b s h = bit_or-shifted 8 x b h

join3_lem :
    (x a b : ℕ) (s : Str) → a < 256 → b < 256 → join3 x (a ∷ b ∷ s) ≡ x * 65536 + a * 256 + b
unfolding join3
join3_lem x a b s ha hb =
    let inner = bit_or-shifted 16 x (a * 256) (omega arith) in
    let sum : bit_or (x * 2 ^ 16) (a * 2 ^ 8) ≡ (x * 256 + a) * 2 ^ 8 = omega (arith, inner) in
    ap (λ (t : ℕ). bit_or t b) sum ∙ bit_or-shifted 8 (x * 256 + a) b hb ∙ omega arith

join4_lem :
    (x a b c : ℕ) (s : Str)
    → a < 256
    → b < 256
    → c < 256
    → join4 x (a ∷ b ∷ c ∷ s) ≡ x * 16777216 + a * 65536 + b * 256 + c
unfolding join4
join4_lem x a b c s ha hb hc =
    let first = bit_or-shifted 24 x (a * 65536) (omega arith) in
    let e1 : bit_or (x * 2 ^ 24) (a * 2 ^ 16) ≡ (x * 256 + a) * 2 ^ 16 = omega (arith, first) in
    let second = bit_or-shifted 16 (x * 256 + a) (b * 256) (omega arith) in
    let e2 : bit_or ((x * 256 + a) * 2 ^ 16) (b * 2 ^ 8) ≡ (x * 65536 + a * 256 + b) * 2 ^ 8 =
      omega (arith, second) in
    ap (λ (t : ℕ). bit_or (bit_or t (b * 2 ^ 8)) c) e1
    ∙ ap (λ (t : ℕ). bit_or t c) e2
    ∙ bit_or-shifted 8 (x * 65536 + a * 256 + b) c hc
    ∙ omega arith

-- The bytes in plain arithmetic.
abbrev pub prefix_code : ℕ → Str
prefix_code n =
    if ltb n 0x80
    then n ∷ []
    else if ltb n 0x4000
    then (n / 256 + 0x80) ∷ n % 256 ∷ []
    else if ltb n 0x20_0000
    then (n / 65536 + 0xc0) ∷ n / 256 % 256 ∷ n % 256 ∷ []
    else if ltb n 0x1000_0000
    then (n / 16777216 + 0xe0) ∷ n / 65536 % 256 ∷ n / 256 % 256 ∷ n % 256 ∷ []
    else 0xf0 ∷ n / 16777216 % 256 ∷ n / 65536 % 256 ∷ n / 256 % 256 ∷ n % 256 ∷ []

-- writeLength writes one to five bytes: the length itself below 0x80; below 0x4000 two bytes, the
-- first marked 10; below 0x200000 three, marked 110; below 0x10000000 four, marked 1110; and else
-- 0xf0 and the low 32 bits of the length, the high byte first.
pub length_bytes-prefix_code : (n : ℕ) → length_bytes n ≡ prefix_code n
unfolding length_bytes
length_bytes-prefix_code n =
    ground (arith, set_bit15 n, set_c0 (n / 65536 % 256), set_e0 (n / 16777216 % 256))

read_one : (x : ℕ) (s : Str) → x < 128 → read_length (x ∷ s) ≡ ok (x, s)
unfolding read_length
read_one x s h = ground (arith, low_form x)

read_two :
    (x b : ℕ) (s : Str) → x < 64 → b < 256 → read_length ((x + 0x80) ∷ b ∷ s) ≡ ok (x * 256 + b, s)
unfolding read_length read_full
read_two x b s hx hb = ground (arith, two_80 x, two_c0 x, join2_lem x b [] hb)

read_three :
    (x a b : ℕ) (s : Str)
    → x < 32
    → a < 256
    → b < 256
    → read_length ((x + 0xc0) ∷ a ∷ b ∷ s) ≡ ok (x * 65536 + a * 256 + b, s)
unfolding read_length read_full
read_three x a b s hx ha hb =
    ground (arith, three_80 x, three_c0 x, three_e0 x, join3_lem x a b [] ha hb)

read_four :
    (x a b c : ℕ) (s : Str)
    → x < 16
    → a < 256
    → b < 256
    → c < 256
    → read_length ((x + 0xe0) ∷ a ∷ b ∷ c ∷ s) ≡ ok (x * 16777216 + a * 65536 + b * 256 + c, s)
unfolding read_length read_full
read_four x a b c s hx ha hb hc =
    ground (arith, four_80 x, four_c0 x, four_e0 x, four_f0 x, join4_lem x a b c [] ha hb hc)

read_five :
    (a b c d : ℕ) (s : Str)
    → read_length (0xf0 ∷ a ∷ b ∷ c ∷ d ∷ s) ≡ ok (a * 16777216 + b * 65536 + c * 256 + d, s)
unfolding read_length read_full uint32_of
read_five a b c d s = ground arith

-- readLength reads back what writeLength wrote, and leaves what follows. The length comes back
-- modulo 2 ^ 32: whole for every length that 32 bits hold, and cut as the code cuts it above that.
pub read_length-length_bytes :
    (n : ℕ) (rest : Str) → read_length (length_bytes n ++ rest) ≡ ok (n % 2 ^ 32, rest)
read_length-length_bytes n rest = rw (length_bytes-prefix_code n) (
    ground (
      arith,
      read_one n rest,
      read_two (n / 256) (n % 256) rest,
      read_three (n / 65536) (n / 256 % 256) (n % 256) rest,
      read_four (n / 16777216) (n / 65536 % 256) (n / 256 % 256) (n % 256) rest,
      read_five (n / 16777216 % 256) (n / 65536 % 256) (n / 256 % 256) (n % 256) rest,
    ))

-- A full read takes what it returns from the front, and as much as it was asked for.
pub read_full_takes :
    (n : ℕ) (s buf rest : Str)
    → read_full n s ≡ ok (buf, rest)
    → (length buf ≡ n) × (length rest + n ≡ length s) × (buf ++ rest ≡ s)
unfolding read_full
read_full_takes n s buf rest e =
    ground (arith, length-take n s, length-drop n s, take-append-drop n s)

pub read_full-append : (buf rest : Str) → read_full (length buf) (buf ++ rest) ≡ ok (buf, rest)
unfolding read_full
read_full-append buf rest =
    ground (arith, length-append buf rest, take-length-append buf rest, drop-length-append buf rest)

read_rest_takes :
    (n k : ℕ) (join : Str → ℕ) (s rest : Str)
    → read_rest n join s ≡ ok (k, rest)
    → length rest ≤ length s
unfolding read_rest
read_rest_takes n k join s rest e =
    let ((buf, s'), full, back) = bind-eq-ok (read_full n s) (λ (b, t). ok (join b, t)) e in
    let took = read_full_takes n s buf s' full in
    let same : s' ≡ rest = ground arith in omega (arith, took, ap length same)

read_length_after_takes :
    (first n : ℕ) (s rest : Str) → read_length_after first s ≡ ok (n, rest) → length rest ≤ length s
unfolding read_length_after
read_length_after_takes first n s rest e = ground (
  arith,
  read_rest_takes 1 n (join2 (and_not first 0xc0)) s rest,
  read_rest_takes 2 n (join3 (and_not first 0xe0)) s rest,
  read_rest_takes 3 n (join4 (and_not first 0xf0)) s rest,
  read_rest_takes 4 n uint32_of s rest,
)

-- A length that was read took at least a byte.
pub read_length_takes :
    (s rest : Str) (n : ℕ) → read_length s ≡ ok (n, rest) → length rest < length s
unfolding read_length
read_length_takes [] rest n e = cc
read_length_takes (first ∷ s) rest n e = omega (arith, read_length_after_takes first n s rest e)
