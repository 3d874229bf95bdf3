-- ===== src/Prelude/Duration/RoundTrip.antt =====
-- A duration in nanoseconds is read back.
use whatunga.Prelude.{ℕ, zero, suc, ◌+◌, ◌-◌, ◌*◌, ◌^◌, ◌≤◌, ◌≡◌, ◌≢◌, refl, ◌∙◌, arith}
use whatunga.Prelude.{
  Bool, true, false, some, [], ◌∷◌, ◌++◌, Str, codes, str_eq, ◌==◌, length, length-append,
}
use whatunga.Prelude.Int.{ℤ, pos, negsuc, IsInt64}
use whatunga.Prelude.Atoi.{format_int}
use whatunga.Prelude.Decimal.{
  is_digit, digits_value, format_uint, IsDigits, format_uint-IsDigits, format_uint-ne-nil,
  digits_value-format_uint,
}
use whatunga.Prelude.Duration.{
  leading_int, unit_of, unit_ns, with_sign, add_scaled, fraction_of, component, components,
  signed_duration, parse_duration,
}

digits_value-le : (acc : ℕ) (s : Str) (n : ℕ) → digits_value acc s ≡ some n → acc ≤ n
unfolding digits_value
digits_value-le acc [] n h = ground arith
digits_value-le acc (c ∷ s) n h = ground (arith, digits_value-le (acc * 10 + (c - b'0')) s n)

leading_int-digits :
    (x : ℕ) (s : Str) (c : ℕ) (rest : Str) (n : ℕ)
    → IsDigits s
    → digits_value x s ≡ some n
    → n ≤ 2 ^ 63
    → is_digit c ≡ false
    → leading_int x (s ++ c ∷ rest) ≡ some (n, c ∷ rest)
unfolding leading_int digits_value
leading_int-digits x [] c rest n h e small stop = rw stop (ground arith)
leading_int-digits x (d ∷ s) c rest n h e small stop =
    let y : ℕ = x * 10 + (d - b'0') in
    let value : digits_value y s ≡ some n = ground arith in
    ground
      (arith, digits_value-le y s n value, leading_int-digits y s c rest n h.1 value small stop)

not_zero : (c : ℕ) (s : Str) → str_eq ((c ∷ s) ++ codes "ns") (codes "0") ≡ false
unfolding str_eq
not_zero c [] = ground arith
not_zero c (d ∷ s) = ground arith

module _ (fraction : ℕ → ℕ → ℕ → ℕ) where
  unit_of_ns : unit_of (codes "ns") ≡ (codes "ns", [])
  unfolding unit_of
  unit_of_ns = refl

  unit_ns_ns : unit_ns (codes "ns") ≡ some 1
  unfolding unit_ns str_eq
  unit_ns_ns = refl

  fraction_of_none :
      (c : ℕ) (s : Str)
      → (c == b'.') ≡ false
      → fraction_of fraction true (c ∷ s) ≡ some ((0, 1), c ∷ s)
  unfolding fraction_of
  fraction_of_none c s h = rw h refl

  add_scaled_ns : (v : ℕ) → v ≤ 2 ^ 63 → add_scaled fraction 0 v (0, 1) 1 ≡ some v
  unfolding add_scaled
  add_scaled_ns v h = ground arith

  component_ns :
      (c : ℕ) (s : Str) (n : ℕ)
      → IsDigits (c ∷ s)
      → digits_value 0 (c ∷ s) ≡ some n
      → n ≤ 2 ^ 63
      → component fraction 0 ((c ∷ s) ++ codes "ns") ≡ some (n, [])
  unfolding component
  component_ns c s n h e small =
      let more : (length (codes "ns") == length ((c ∷ s) ++ codes "ns")) ≡ false =
        ground (arith, length-append (c ∷ s) (codes "ns")) in
      rw
        (
          leading_int-digits 0 (c ∷ s) b'n' (codes "s") n h e small refl,
          more,
          fraction_of_none b'n' (codes "s") refl,
          unit_of_ns,
          unit_ns_ns,
          add_scaled_ns n small,
        )
        refl

  components_once :
      (k : ℕ) (d : ℕ) (c : ℕ) (s : Str) (total : ℕ)
      → component fraction d (c ∷ s) ≡ some (total, [])
      → components fraction (suc k) d (c ∷ s) ≡ some total
  unfolding components
  components_once zero d c s total e = rw e refl
  components_once (suc k) d c s total e = rw e refl

  signed_duration_ns :
      (negative : Bool) (c : ℕ) (s : Str) (n : ℕ)
      → IsDigits (c ∷ s)
      → digits_value 0 (c ∷ s) ≡ some n
      → n ≤ 2 ^ 63
      → signed_duration fraction negative ((c ∷ s) ++ codes "ns") ≡ with_sign negative n
  unfolding signed_duration
  signed_duration_ns negative c s n h e small =
      let long : str_eq ((c ∷ s) ++ codes "ns") (codes "0") ≡ false = not_zero c s in
      rw
        (
          long,
          components_once (length (s ++ codes "ns")) 0 c (s ++ codes "ns") n
              (component_ns c s n h e small),
        )
        refl

  ns_of :
      (s : Str) (n : ℕ)
      → s ≢ []
      → IsDigits s
      → digits_value 0 s ≡ some n
      → n ≤ 2 ^ 63
      → (parse_duration fraction (s ++ codes "ns") ≡ with_sign false n)
        × (parse_duration fraction (b'-' ∷ (s ++ codes "ns")) ≡ with_sign true n)
  unfolding parse_duration
  ns_of [] n ne h e small = absurd (ne refl)
  ns_of (c ∷ s) n ne h e small =
      let digit : is_digit c ≡ true = h.0 in
      let no_minus : (c == b'-') ≡ false = ground arith in
      let no_plus : (c == b'+') ≡ false = ground arith in
      (
        rw (no_minus, no_plus) (signed_duration_ns false c s n h e small),
        signed_duration_ns true c s n h e small,
      )

  -- A number of nanoseconds is read back.
  pub parse_duration-format_int :
      (n : ℤ) → IsInt64 n → parse_duration fraction (format_int n ++ codes "ns") ≡ some n
  unfolding format_int with_sign
  parse_duration-format_int (pos n) h =
      (ns_of (format_uint n) n (format_uint-ne-nil n) (format_uint-IsDigits n)
        (digits_value-format_uint n) (omega arith)).0
      ∙ ground arith
  parse_duration-format_int (negsuc n) h =
      (ns_of (format_uint (suc n)) (suc n) (format_uint-ne-nil (suc n))
        (format_uint-IsDigits (suc n)) (digits_value-format_uint (suc n)) (omega arith)).1
      ∙ ground arith
