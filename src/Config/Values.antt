-- ===== src/Config/Values.antt =====
-- What valueAfterColon (internal/config/config.go) reads from a printed line, and the conversions
-- of the values.
use whatunga.Prelude.{
  ℕ, suc, ◌≤◌, ◌≡◌, refl, ap, ◌∙◌, arith, Bool, true, false, not, ◌&&◌, some, List, [], ◌∷◌, ◌++◌,
  Str, All, codes, str_eq, All-append, ◌==◌, is_nil, length,
}
use whatunga.Prelude.Trim.{
  is_solid, strip, trim_space_left, trim_space_right, trim_space, trim_set_left, trim_set_right,
  trim_set, trim_space_left-solid, trim_space_right-solid, trim_space_left-space,
  trim_space-AllSolid,
}
use whatunga.Prelude.Split.{split, join, split-join, Without}
use whatunga.Prelude.Int.{ℤ, pos, negsuc}
use whatunga.Prelude.Decimal.{is_digit, format_uint, IsDigits, format_uint-IsDigits}
use whatunga.Prelude.Atoi.{format_int}
use whatunga.Config.{is_quote, after_colon, value_after_colon, addresses}
use whatunga.Config.Print.{
  field_line, is_plain, AllPlain, is_address_byte, IsAddress, print_duration, print_bool,
}

pub trim_space-space : (s : Str) → trim_space (b' ' ∷ s) ≡ trim_space s
unfolding trim_space
trim_space-space s = ap trim_space_right (trim_space_left-space s)

-- A text between two solid bytes.
pub trim_space-framed :
    (c d : ℕ) (s : Str)
    → is_solid c ≡ true
    → is_solid d ≡ true
    → trim_space (c ∷ (s ++ d ∷ [])) ≡ c ∷ (s ++ d ∷ [])
unfolding trim_space
trim_space-framed c d s hc hd =
    ap trim_space_right (trim_space_left-solid c (s ++ d ∷ []) hc)
    ∙ trim_space_right-solid (c ∷ s) d hd

trim_set_right_plain :
    (v : Str) (c : ℕ) → AllPlain v → is_quote c ≡ true → trim_set_right is_quote (v ++ c ∷ []) ≡ v
unfolding trim_set_right
trim_set_right_plain [] c h q = rw q refl
trim_set_right_plain (d ∷ v) c h q = rw (trim_set_right_plain v c h.1 q) (ground arith)

unquote : (v : Str) → AllPlain v → trim_set is_quote (b'"' ∷ (v ++ b'"' ∷ [])) ≡ v
unfolding trim_set trim_set_left
unquote [] h = unfold trim_set_right in refl
unquote (c ∷ v) h =
    let kept : is_quote c ≡ false = ground arith in
    rw kept (trim_set_right_plain (c ∷ v) b'"' h refl)

-- No byte of the key is a colon.
abbrev pub is_key : Str → Bool
is_key [] = true
is_key (c ∷ key) = not (c == b':') && is_key key

after_colon_key : (key s : Str) → is_key key ≡ true → after_colon (key ++ b':' ∷ s) ≡ some s
unfolding after_colon
after_colon_key [] s h = refl
after_colon_key (c ∷ key) s h = ground (arith, after_colon_key key s)

pub value_after_colon-field_line :
    (key v : Str) → is_key key ≡ true → AllPlain v → value_after_colon (field_line key v) ≡ v
unfolding value_after_colon
value_after_colon-field_line key v hk hv =
    rw
      (
        after_colon_key key (b' ' ∷ b'"' ∷ (v ++ b'"' ∷ [])) hk,
        trim_space-space (b'"' ∷ (v ++ b'"' ∷ [])),
        trim_space-framed b'"' b'"' v refl refl,
      )
      (unquote v hv)

address_solid : (a : Str) → All (λ c. is_address_byte c ≡ true) a → All (λ c. is_solid c ≡ true) a
address_solid [] h = tt
address_solid (c ∷ a) h = (ground arith, address_solid a h.1)

address_plain : (a : Str) → All (λ c. is_address_byte c ≡ true) a → AllPlain a
address_plain [] h = tt
address_plain (c ∷ a) h = (ground arith, address_plain a h.1)

address-Without : (a : Str) → All (λ c. is_address_byte c ≡ true) a → Without b',' a
address-Without [] h = tt
address-Without (c ∷ a) h = (ground arith, address-Without a h.1)

addresses-Without : (parts : List Str) → All IsAddress parts → All (Without b',') parts
addresses-Without [] h = tt
addresses-Without (a ∷ parts) h = (address-Without a h.0.0, addresses-Without parts h.1)

not_nil : (a : Str) → 1 ≤ length a → is_nil a ≡ false
not_nil [] h = absurd (omega arith)
not_nil (c ∷ a) h = refl

addresses_same : (parts : List Str) → All IsAddress parts → addresses parts ≡ parts
unfolding addresses
addresses_same [] h = refl
addresses_same (a ∷ parts) h =
    let solid : All (λ c. is_solid c ≡ true) a = address_solid a h.0.0 in
    let some_byte : is_nil a ≡ false = not_nil a h.0.1 in
    rw (trim_space-AllSolid a solid, some_byte) (ap (◌∷◌ a) (addresses_same parts h.1))

-- Addresses that are joined are read back.
pub addresses-split-join :
    (parts : List Str) → All IsAddress parts → addresses (split b',' (join b',' parts)) ≡ parts
addresses-split-join [] h =
    unfold addresses split join trim_space trim_space_left trim_space_right strip in refl
addresses-split-join (a ∷ parts) h =
    ap addresses (split-join b',' a parts (addresses-Without (a ∷ parts) h))
    ∙ addresses_same (a ∷ parts) h

pub AllPlain-join : (parts : List Str) → All IsAddress parts → AllPlain (join b',' parts)
unfolding join
AllPlain-join [] h = tt
AllPlain-join (a ∷ []) h = address_plain a h.0.0
AllPlain-join (a ∷ b ∷ parts) h =
    All-append (λ c. is_plain c ≡ true) a (b',' ∷ join b',' (b ∷ parts)) (address_plain a h.0.0)
      (refl, AllPlain-join (b ∷ parts) h.1)

digits_plain : (s : Str) → IsDigits s → AllPlain s
digits_plain [] h = tt
digits_plain (c ∷ s) h = let digit : is_digit c ≡ true = h.0 in (ground arith, digits_plain s h.1)

pub AllPlain-format_int : (n : ℤ) → AllPlain (format_int n)
unfolding format_int
AllPlain-format_int (pos n) = digits_plain (format_uint n) (format_uint-IsDigits n)
AllPlain-format_int (negsuc n) =
    (refl, digits_plain (format_uint (suc n)) (format_uint-IsDigits (suc n)))

pub AllPlain-print_duration : (n : ℤ) → AllPlain (print_duration n)
AllPlain-print_duration n =
    All-append (λ c. is_plain c ≡ true) (format_int n) (codes "ns") (AllPlain-format_int n)
      (refl, (refl, tt))

pub AllPlain-print_bool : (b : Bool) → AllPlain (print_bool b)
AllPlain-print_bool true = (refl, (refl, (refl, (refl, tt))))
AllPlain-print_bool false = (refl, (refl, (refl, (refl, (refl, tt)))))

pub print_bool_true : (b : Bool) → str_eq (print_bool b) (codes "true") ≡ b
unfolding str_eq
print_bool_true true = refl
print_bool_true false = refl
