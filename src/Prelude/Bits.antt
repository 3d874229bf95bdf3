-- ===== src/Prelude/Bits.antt =====
-- Go's `|`, `&` and `&^` where the program uses them. Over one byte a law is a table, checked by
-- evaluation; `v << k | b` on a wider word is a sum, because the low bits are free.
use Prim.Native.Nat.{digits, bit_and-bitwise, bit_or-bitwise, min, max}
use whatunga.Prelude.{
  ℕ, zero, suc, ◌+◌, ◌-◌, ◌*◌, ◌/◌, ◌%◌, ◌^◌, ◌≤◌, ◌<◌, bit_and, bit_or, ◌≡◌, refl, ◌∙◌, Bool, true,
  ◌&&◌, arith, ◌==◌, ==_iff,
}
use native.Mathlib.Nat.{pow-suc, mul_assoc}

-- a &^ b
abbrev pub and_not : ℕ → ℕ → ℕ
and_not a b = a - bit_and a b

-- The two functions give the same at each number below the bound.
unfoldable pub agree_below : (ℕ → ℕ) → (ℕ → ℕ) → ℕ → Bool
agree_below f g zero = true
agree_below f g (suc bound) = f bound == g bound && agree_below f g bound

-- A law that evaluation has checked at each number below the bound.
pub table :
    (f g : ℕ → ℕ) (bound : ℕ) → agree_below f g bound ≡ true → (v : ℕ) → v < bound → f v ≡ g v
unfolding agree_below
table f g zero checked v small = absurd (omega arith)
table f g (suc bound) checked v small =
    ground (arith, ==_iff (f bound) (g bound), table f g bound _ v)

-- `|` by the digit recursion that it stands for, where `x` is a multiple of 2 ^ k above `b`.
or-shifted : (n k x a b : ℕ) → x ≤ n → x ≡ a * 2 ^ k → b < 2 ^ k → digits (λ c. c) max n x b ≡ x + b
or-shifted zero k zero a b le e lt = omega arith
or-shifted zero k (suc x) a b le e lt = absurd (omega arith)
or-shifted (suc n) k zero a b le e lt = omega arith
or-shifted (suc n) zero (suc x) a b le e lt =
    let half = suc x / 2 in omega (arith, or-shifted n 0 half half (b / 2))
or-shifted (suc n) (suc k) (suc x) a b le e lt =
    let double : a * 2 ^ suc k ≡ a * 2 ^ k * 2 = rw (pow-suc, mul_assoc) in
    let room : b / 2 < 2 ^ k = omega (arith, pow-suc 2 k) in
    omega (
      arith,
      double,
      or-shifted n k (suc x / 2) a (b / 2) (omega arith) (omega (arith, double)) room,
    )

-- Where the low `k` bits of the left side are 0 and the right side has no others, `|` is `+`.
pub bit_or-shifted : (k a b : ℕ) → b < 2 ^ k → bit_or (a * 2 ^ k) b ≡ a * 2 ^ k + b
bit_or-shifted k a b h =
    bit_or-bitwise (a * 2 ^ k) b ∙ or-shifted (a * 2 ^ k) k (a * 2 ^ k) a b (omega arith) refl h

-- `&` with a mask `m` of k ones by the digit recursion, where `x` is `b` below a multiple of 2 ^ k.
and-low :
    (n k x m a b : ℕ)
    → x ≤ n
    → x ≡ a * 2 ^ k + b
    → b < 2 ^ k
    → m + 1 ≡ 2 ^ k
    → digits (λ c. zero) min n x m ≡ b
and-low zero k zero m a b le e lt ones = omega arith
and-low zero k (suc x) m a b le e lt ones = absurd (omega arith)
and-low (suc n) k zero m a b le e lt ones = omega arith
and-low (suc n) zero (suc x) m a b le e lt ones =
    let half = suc x / 2 in
    omega (
      arith,
      and-low n 0 half (m / 2) half 0 (omega arith) (omega arith) (omega arith) (omega arith),
    )
and-low (suc n) (suc k) (suc x) m a b le e lt ones =
    let double : a * 2 ^ suc k ≡ a * 2 ^ k * 2 = rw (pow-suc, mul_assoc) in
    let top : 2 ^ suc k ≡ 2 ^ k * 2 = pow-suc 2 k in
    omega (
      arith,
      double,
      top,
      and-low n k (suc x / 2) (m / 2) a (b / 2) (omega arith) (omega (arith, double))
          (omega (arith, top)) (omega (arith, top)),
    )

-- `v & 0x7F` is the last digit of `v` in base 128.
pub bit_and-septet : (v : ℕ) → bit_and v 0x7f ≡ v % 128
bit_and-septet v =
    bit_and-bitwise v 0x7f
    ∙ and-low v 7 v 0x7f (v / 128) (v % 128) (omega arith) (omega arith) (omega arith) refl
