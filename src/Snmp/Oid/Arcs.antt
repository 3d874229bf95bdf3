-- ===== src/Snmp/Oid/Arcs.antt =====
-- The base 128 code of an arc, and what decodeOID reads out of a run of arcs.
use mathlib.Core.WellFounded.{Acc}
use whatunga.Prelude.{
  ℕ, ◌+◌, ◌*◌, ◌/◌, ◌%◌, ◌^◌, ◌<◌, bit_and, bit_or, arith, ◌≡◌, ◌≢◌, refl, ap, ◌∙◌, sym, inl, inr,
}
use whatunga.Prelude.{List, [], ◌∷◌, ◌++◌, Str, All, ◌==◌, ==_iff, Bool-cases}
use whatunga.Prelude.Bits.{table, agree_below, bit_or-shifted, bit_and-septet}
use whatunga.Prelude.Order.{lt_wf}
use whatunga.Snmp.Oid.{arc_loop, mark, encode_oid_arc, encode_arcs, arcs_from}

-- Digits in base 128.
abbrev IsSeptets : Str → Type 0
IsSeptets s = All (λ c. c < 128) s

-- The number that the digits spell, the high one first, behind `acc`.
abbrev septets_value : ℕ → Str → ℕ
septets_value acc [] = acc
septets_value acc (d ∷ digits) = septets_value (acc * 128 + d) digits

low_of_byte : (d : ℕ) → d < 128 → bit_and d 0x7f ≡ d
low_of_byte d h = table (λ x. bit_and x 0x7f) (λ x. x) 128 (unfold agree_below in refl) d h

top_of_byte : (d : ℕ) → d < 128 → bit_and d 0x80 ≡ 0
top_of_byte d h = table (λ x. bit_and x 0x80) (λ _. 0) 128 (unfold agree_below in refl) d h

low_of_marked : (d : ℕ) → d < 128 → bit_and (bit_or d 0x80) 0x7f ≡ d
low_of_marked d h =
    table (λ x. bit_and (bit_or x 0x80) 0x7f) (λ x. x) 128 (unfold agree_below in refl) d h

top_of_marked : (d : ℕ) → d < 128 → bit_and (bit_or d 0x80) 0x80 ≡ 128
top_of_marked d h =
    table (λ x. bit_and (bit_or x 0x80) 0x80) (λ _. 128) 128 (unfold agree_below in refl) d h

-- `v & 0x7F` is the last digit.
low_septet : (v : ℕ) → bit_and v 0x7f % 256 < 128
low_septet v = omega (arith, bit_and-septet v)

-- One round of decodeOID's loop is a step of `septets_value`, cut to 64 bits.
shift_in : (w d : ℕ) → d < 128 → bit_or (w % 2 ^ 64 * 2 ^ 7 % 2 ^ 64) d ≡ (w * 128 + d) % 2 ^ 64
shift_in w d h =
    let low : w % 2 ^ 64 * 2 ^ 7 % 2 ^ 64 ≡ w % 2 ^ 57 * 2 ^ 7 = omega arith in
    ap (λ (t : ℕ). bit_or t d) low ∙ bit_or-shifted 7 (w % 2 ^ 57) d h ∙ omega arith

arcs_from-mark :
    (w d : ℕ) (digits rest : Str)
    → IsSeptets (d ∷ digits)
    → arcs_from (w % 2 ^ 64) (mark (d ∷ digits) ++ rest)
      ≡ septets_value w (d ∷ digits) % 2 ^ 64 ∷ arcs_from 0 rest
unfolding arcs_from mark
arcs_from-mark w d [] rest (h, _) = rw (low_of_byte d h, top_of_byte d h, shift_in w d h)
arcs_from-mark w d (next ∷ digits) rest (h, more) =
    rw (low_of_marked d h, top_of_marked d h, shift_in w d h)
      (arcs_from-mark (w * 128 + d) next digits rest more)

septets_value-arc_loop :
    (v : ℕ) (digits : Str) (w : Acc ◌<◌ v)
    → septets_value 0 (arc_loop v digits w) ≡ septets_value v digits
unfolding arc_loop
septets_value-arc_loop v digits (Acc.intro _ smaller) =
    let next : v / 2 ^ 7 * 128 + bit_and v 0x7f % 256 ≡ v = omega (arith, bit_and-septet v) in
    grind (
      arith,
      λ (more : v / 2 ^ 7 < v).
          septets_value-arc_loop (v / 2 ^ 7) (bit_and v 0x7f % 256 ∷ digits)
            (smaller (v / 2 ^ 7) more),
      ap (λ (k : ℕ). septets_value k digits) next,
    )

arc_loop-IsSeptets :
    (v : ℕ) (digits : Str) (w : Acc ◌<◌ v) → IsSeptets digits → IsSeptets (arc_loop v digits w)
unfolding arc_loop
arc_loop-IsSeptets v digits (Acc.intro _ smaller) h = grind (
  arith,
  λ (more : v / 2 ^ 7 < v).
      arc_loop-IsSeptets (v / 2 ^ 7) (bit_and v 0x7f % 256 ∷ digits) (smaller (v / 2 ^ 7) more)
        (low_septet v, h),
)

arc_loop_grows : (v d : ℕ) (digits : Str) (w : Acc ◌<◌ v) → arc_loop v (d ∷ digits) w ≢ []
unfolding arc_loop
arc_loop_grows v d digits (Acc.intro _ smaller) = grind (
  arith,
  λ (more : v / 2 ^ 7 < v).
      arc_loop_grows (v / 2 ^ 7) (bit_and v 0x7f % 256) (d ∷ digits) (smaller (v / 2 ^ 7) more),
)

arc_loop_pos : (v : ℕ) (w : Acc ◌<◌ v) → 0 < v → arc_loop v [] w ≢ []
unfolding arc_loop
arc_loop_pos v (Acc.intro _ smaller) h = grind (
  arith,
  λ (more : v / 2 ^ 7 < v).
      arc_loop_grows (v / 2 ^ 7) (bit_and v 0x7f % 256) [] (smaller (v / 2 ^ 7) more),
)

arcs_from-marked :
    (digits rest : Str)
    → digits ≢ []
    → IsSeptets digits
    → arcs_from 0 (mark digits ++ rest) ≡ septets_value 0 digits % 2 ^ 64 ∷ arcs_from 0 rest
arcs_from-marked [] rest ne h = absurd (ne refl)
arcs_from-marked (d ∷ digits) rest ne h = arcs_from-mark 0 d digits rest h

arcs_from_zero : (rest : Str) → arcs_from 0 (0 ∷ rest) ≡ 0 ∷ arcs_from 0 rest
unfolding arcs_from
arcs_from_zero rest = refl

-- decodeOID reads back an arc that encodeOIDArc wrote, and goes on after its last byte.
pub arcs_from-encode_oid_arc :
    (arc : ℕ) (rest : Str)
    → arc < 2 ^ 64
    → arcs_from 0 (encode_oid_arc arc ++ rest) ≡ arc ∷ arcs_from 0 rest
unfolding encode_oid_arc
arcs_from-encode_oid_arc arc rest h = elim (Bool-cases (arc == 0)) [
  | inl none_set ↦
      let zero_arc : arc ≡ 0 = (==_iff arc 0).0 none_set in
      rw none_set (arcs_from_zero rest ∙ ap (λ (t : ℕ). t ∷ arcs_from 0 rest) (sym zero_arc))
  | inr more ↦
      let w = lt_wf.apply arc in
      let value : septets_value 0 (arc_loop arc [] w) % 2 ^ 64 ≡ arc =
        ap (λ (t : ℕ). t % 2 ^ 64) (septets_value-arc_loop arc [] w) ∙ omega arith in
      rw more (
        arcs_from-marked (arc_loop arc [] w) rest (arc_loop_pos arc w (ground arith))
          (arc_loop-IsSeptets arc [] w tt)
        ∙ ap (λ (t : ℕ). t ∷ arcs_from 0 rest) value)
]

-- decodeOID reads back every arc of a run that encodeOID wrote.
pub arcs_from-encode_arcs :
    (arcs : List ℕ) → All (λ a. a < 2 ^ 64) arcs → arcs_from 0 (encode_arcs arcs) ≡ arcs
unfolding encode_arcs
arcs_from-encode_arcs [] h = unfold arcs_from in refl
arcs_from-encode_arcs (arc ∷ arcs) h =
    arcs_from-encode_oid_arc arc (encode_arcs arcs) h.0
    ∙ ap (◌∷◌ arc) (arcs_from-encode_arcs arcs h.1)
