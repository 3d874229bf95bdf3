-- ===== src/Prelude/Duration/Fuel.antt =====
-- The fuel of a duration, which is the number of its bytes, is enough.
use whatunga.Prelude.{ℕ, zero, suc, ◌+◌, ◌-◌, ◌*◌, ◌/◌, ◌^◌, ◌≤◌, ◌≡◌, refl, arith}
use whatunga.Prelude.{
  Bool, false, not, ◌||◌, Option, none, some, [], ◌∷◌, Str, ltb, ◌==◌, if◌then◌else◌, is_nil,
  length,
}
use whatunga.Prelude.Options.{◌>>=◌}
use whatunga.Prelude.Decimal.{is_digit}
use whatunga.Prelude.{◌<◌, ◌≤◌, Bool-cases, Option-cases, inl, inr, refl, ap, ◌≡◌}
use whatunga.Prelude.Duration.{
  leading_int, leading_fraction, unit_of, unit_ns, add_scaled, fraction_of, component, components,
}

leading_int-le :
    (x : ℕ) (s : Str) (v : ℕ) (rest : Str)
    → leading_int x s ≡ some (v, rest)
    → length rest ≤ length s
unfolding leading_int
leading_int-le x [] v rest e = ground arith
leading_int-le x (c ∷ s) v rest e = ground (arith, leading_int-le (x * 10 + (c - b'0')) s v rest)

leading_fraction-le :
    (full : Bool) (x scale : ℕ) (s : Str) → length (leading_fraction full x scale s).2 ≤ length s
unfolding leading_fraction
leading_fraction-le full x scale [] = omega arith
leading_fraction-le full x scale (c ∷ s) =
    let y = x * 10 + (c - b'0') in
    let f = full || ltb ((2 ^ 63 - 1) / 10) x || ltb (2 ^ 63) y in
    let rest = leading_fraction-le f (if f then x else y) (if f then scale else scale * 10) s in
    elim (Bool-cases (is_digit c)) [
      | inl digit ↦ rw digit (omega (arith, rest))
      | inr stop ↦ rw stop (omega arith)
    ]

unit_of-length : (s : Str) → length (unit_of s).0 + length (unit_of s).1 ≡ length s
unfolding unit_of
unit_of-length [] = omega arith
unit_of-length (c ∷ s) = ground (arith, unit_of-length s)

bind-some {ℓ κ} :
    {X : Type ℓ} {Y : Type κ} (m : Option X) (f : X → Option Y) {y : Y}
    → (m >>= f) ≡ some y
    → (x : X) × (m ≡ some x) × (f x ≡ some y)
bind-some none f e = cc
bind-some (some x) f e = (x, refl, e)

none-some {ℓ} : {X : Type ℓ} (x : X) → let nothing : Option X = none in nothing ≡ some x → ⊥
none-some x e = cc

not_blank : (s : Str) → is_nil s ≡ false → 0 < length s
not_blank [] h = cc
not_blank (c ∷ s) h = omega arith

module _ (fraction : ℕ → ℕ → ℕ → ℕ) where
  fraction_of-le :
      (before : Bool) (s : Str) (f : ℕ × ℕ) (rest : Str)
      → fraction_of fraction before s ≡ some (f, rest)
      → length rest ≤ length s
  unfolding fraction_of
  fraction_of-le before [] f rest e = ground arith
  fraction_of-le before (c ∷ s) f rest e = ground (arith, leading_fraction-le false 0 1 s)

  unit_of-lt :
      (s : Str) (unit : ℕ)
      → (if is_nil (unit_of s).0 then none else unit_ns (unit_of s).0) ≡ some unit
      → length (unit_of s).1 < length s
  unit_of-lt s unit e = elim (Bool-cases (is_nil (unit_of s).0)) [
    | inl blank ↦ absurd (none-some unit (rw blank at e))
    | inr named ↦ omega (arith, unit_of-length s, not_blank (unit_of s).0 named)
  ]

  -- A component takes a byte at least: that of its unit.
  component-lt :
      (d : ℕ) (s : Str) (d' : ℕ) (rest : Str)
      → component fraction d s ≡ some (d', rest)
      → length rest < length s
  unfolding component
  component-lt d s d' rest e =
      let ((v, s1), e1, k1) = bind-some (leading_int 0 s) _ e in
      let ((f, s2), e2, k2) =
        bind-some (fraction_of fraction (not (length s1 == length s)) s1) _ k1 in
      let (unit, e3, k3) =
        bind-some (if is_nil (unit_of s2).0 then none else unit_ns (unit_of s2).0) _ k2 in
      let (total, e4, k4) = bind-some (add_scaled fraction d v f unit) _ k3 in
      let same : (unit_of s2).1 ≡ rest = cc in
      omega (
        arith,
        leading_int-le 0 s v s1 e1,
        fraction_of-le (not (length s1 == length s)) s1 f s2 e2,
        unit_of-lt s2 unit e3,
        ap length same,
      )

  -- All fuel that is at least the number of the bytes gives the same.
  pub components_enough :
      (f g d : ℕ) (s : Str)
      → length s ≤ f
      → length s ≤ g
      → components fraction f d s ≡ components fraction g d s
  unfolding components
  components_enough f g d [] h k = ground arith
  components_enough zero g d (c ∷ s) h k = absurd (omega arith)
  components_enough (suc f) zero d (c ∷ s) h k = absurd (omega arith)
  components_enough (suc f) (suc g) d (c ∷ s) h k =
      elim (Option-cases (component fraction d (c ∷ s))) [
        | inl bad ↦ rw bad refl
        | inr ((d', rest), good) ↦
            let less : length rest < length (c ∷ s) = component-lt d (c ∷ s) d' rest good in
            rw good (components_enough f g d' rest (omega arith) (omega arith))
      ]
