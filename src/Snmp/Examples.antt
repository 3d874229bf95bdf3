-- ===== src/Snmp/Examples.antt =====
-- The SNMP code on concrete bytes, and the theorems at concrete inputs.
use whatunga.Prelude.{ℕ, zero, suc, ◌<◌, ◌≡◌, ◌≢◌, refl, ap, arith, dec_true}
use native.Mathlib.Decide.{dec_lt}
use whatunga.Prelude.{
  some, inl, inr, if◌then◌else◌, false, ◌+◌, Bool-cases, str_eq_iff, ◌∙◌, [], ◌∷◌, ◌++◌, Str, codes,
  length,
}
use whatunga.Prelude.Int.{ℤ, pos, negsuc}
use whatunga.Prelude.Order.{lt_wf}
use whatunga.Prelude.Maps.{insert}
use whatunga.Prelude.{str_eq, has_prefix}
use whatunga.Prelude.Split.{split, join}
use whatunga.Prelude.Decimal.{parse_uint, digits_value, format_uint, digit_loop}
use whatunga.Snmp.{Result, ok, panic, ◌>>=◌}
use whatunga.Snmp.Ber.{
  Tlv, length_value, encode_length, decode_length, encode_tlv, decode_tlv, tag_integer,
  tag_octet_str, tag_get_response,
}
use whatunga.Snmp.Tlvs.{decode_tlv-encode_tlv, decode_tlv_panics}
use whatunga.Snmp.Integer.{integer_loop, stops, integer_bytes, encode_integer, decode_integer}
use whatunga.Snmp.Integer.RoundTrip.{decode_integer-encode_integer}
use whatunga.Snmp.Oid.{
  arc_loop, mark, parse_arcs, encode_arcs, arcs_from, encode_oid_arc, oid_content, encode_oid,
  decode_arcs, decode_oid,
}
use whatunga.Snmp.Oid.RoundTrip.{dotted, decode_arcs-ne-oid_content, decode_oid-encode_oid}
use whatunga.Snmp.Message.{
  Value, octets, null, end_of_mib_view, decode_value, ticks, done, stuck, parse_response,
  parse_varbinds, pdu_content, message_bytes,
}
use whatunga.Snmp.Message.Varbinds.{Binding, store_all}
use whatunga.Snmp.Message.Responses.{parse_response-pdu_content}
use whatunga.Snmp.Walk.{walk, leaves, is_end_of_mib_view}
use whatunga.Snmp.Walk.Subtree.{Collects, walk-Collects}
use whatunga.Snmp.Walk.Ends.{walk-Answers, walk_repeats, walk-ne-stuck}

-- oid_test.go and ber_test.go, on some of their inputs.
oid_bytes :
    encode_oid (codes "1.3.6.1.2.1.1.1.0") ≡ some (0x06 ∷ 8 ∷ 0x2b ∷ 6 ∷ 1 ∷ 2 ∷ 1 ∷ 1 ∷ 1 ∷ 0 ∷ [])
unfolding encode_oid split parse_arcs parse_uint digits_value oid_content encode_arcs encode_oid_arc
    arc_loop mark encode_tlv encode_length lt_wf dec_lt
oid_bytes = refl

arc_bytes : encode_oid_arc 14988 ≡ 0xf5 ∷ 0x0c ∷ []
unfolding encode_oid_arc arc_loop mark lt_wf dec_lt
arc_bytes = refl

integers : (integer_bytes (pos 300) ≡ 1 ∷ 0x2c ∷ []) × (integer_bytes (negsuc 0) ≡ 0xff ∷ [])
unfolding integer_bytes integer_loop stops lt_wf dec_true
integers = (refl, refl)

decode_tlv-encode_tlv_example :
    decode_tlv (encode_tlv tag_octet_str (codes "public") ++ 9 ∷ [])
    ≡ ok (record {
      tag = tag_octet_str;
      content = codes "public";
      consumed = length (encode_tlv tag_octet_str (codes "public"));
    })
decode_tlv-encode_tlv_example =
    decode_tlv-encode_tlv tag_octet_str (codes "public") (9 ∷ []) (omega arith)

abbrev two_bytes : Tlv
two_bytes = record { tag = 5; content = []; consumed = 2 }

two_bytes_read : decode_tlv (5 ∷ 0 ∷ 1 ∷ []) ≡ ok two_bytes
unfolding decode_tlv decode_length
two_bytes_read = refl

abbrev all_ones : Str
all_ones = 255 ∷ 255 ∷ 255 ∷ 255 ∷ 255 ∷ 255 ∷ 255 ∷ 255 ∷ []

decode_tlv_panics_example : decode_tlv (0x30 ∷ 0x88 ∷ (all_ones ++ [])) ≡ panic
decode_tlv_panics_example =
    decode_tlv_panics 0x30 255 255 255 255 255 255 255 255 [] (ground arith) (omega arith)

decode_integer-encode_integer_example :
    let read : Tlv → Result (ℕ × ℤ) = λ t. ok (t.tag, decode_integer t.content) in
    (decode_tlv (encode_integer (pos 161) ++ 3 ∷ []) >>= read) ≡ ok (tag_integer, pos 161)
decode_integer-encode_integer_example =
    decode_integer-encode_integer (pos 161) (3 ∷ []) (omega arith)

decode_arcs-ne-oid_content_example :
    (c : Str) × (oid_content (2 ∷ 100 ∷ 3 ∷ []) ≡ some c) × (decode_arcs c ≢ 2 ∷ 100 ∷ 3 ∷ [])
decode_arcs-ne-oid_content_example =
    decode_arcs-ne-oid_content 2 100 (3 ∷ []) (omega arith, tt) (omega arith)

decode_oid-encode_oid_example :
    (c : Str) × (encode_oid (dotted (1 ∷ 3 ∷ 6 ∷ [])) ≡ some (encode_tlv 0x06 c))
    × (decode_oid c ≡ dotted (1 ∷ 3 ∷ 6 ∷ []))
decode_oid-encode_oid_example =
    decode_oid-encode_oid 1 3 (6 ∷ []) (omega arith, tt) (omega arith) (omega arith)

abbrev up_time : Binding
up_time = record { name = 0x2b ∷ 6 ∷ []; tag = 0x43; content = 1 ∷ 0 ∷ [] }

abbrev description : Binding
description = record { name = 0x2b ∷ 7 ∷ []; tag = tag_octet_str; content = codes "fw1" }

stored :
    store_all [] (up_time ∷ description ∷ [])
    ≡ (codes "1.3.6", ticks (pos 256)) ∷ (codes "1.3.7", octets (codes "fw1")) ∷ []
unfolding insert str_eq decode_oid decode_arcs arcs_from join format_uint digit_loop decode_value
    decode_integer length_value lt_wf dec_lt
stored = refl

parse_response-pdu_content_example :
    parse_response (
      message_bytes (codes "public") tag_get_response (pdu_content (pos 7) (pos 0) (pos 0) [])
      ++ [])
    ≡ parse_varbinds []
parse_response-pdu_content_example =
    parse_response-pdu_content (codes "public") (pos 7) (pos 0) [] [] (omega arith) (omega arith)
      (omega arith)

-- An agent whose world is the number of GetNext requests so far: two rows, and then another table.
abbrev base : Str
base = codes "1.3"

abbrev table_agent : Str → ℕ → ℕ × Result (Str × Value)
table_agent current zero = (1, ok (codes "1.3.1", null))
table_agent current (suc zero) = (2, ok (codes "1.3.2", null))
table_agent current (suc (suc n)) = (3, ok (codes "1.4.1", null))

walk-Collects_example : Collects base (walk table_agent 5 base 0).1
walk-Collects_example = walk-Collects table_agent base 5 0

walk-Answers_example :
    walk table_agent 3 base 0 ≡ (3, done ((codes "1.3.1", null) ∷ (codes "1.3.2", null) ∷ []))
unfolding insert str_eq has_prefix is_end_of_mib_view leaves
walk-Answers_example =
    walk-Answers table_agent base 0 ((codes "1.3.1", null) ∷ (codes "1.3.2", null) ∷ []) 3
      (omega arith)
      (1, refl, (refl, refl), (2, refl, (refl, refl), (codes "1.4.1", null, refl, inr refl)))

abbrev stubborn_agent : Str → ℕ → ℕ × Result (Str × Value)
stubborn_agent current w = (w, ok (codes "1.3.1", null))

walk_repeats_example : walk stubborn_agent 20000 base 0 ≡ (0, stuck)
unfolding has_prefix is_end_of_mib_view
walk_repeats_example =
    walk_repeats stubborn_agent base 20000 (codes "1.3.1") null 0 (λ c v. refl) (refl, refl)

-- An agent with two entries: behind them it answers with the OID asked about and the mark.
mib_agent : Str → ℕ → ℕ × Result (Str × Value)
mib_agent current w =
    if str_eq current base
    then (w + 1, ok (codes "1.3.1", null))
    else if str_eq current (codes "1.3.1")
    then (w + 1, ok (codes "1.3.10", null))
    else (w + 1, ok (current, end_of_mib_view))

abbrev Shorter : Str → Str → Type 0
Shorter i j = length i < length j

mib_agent_ascends :
    (current oid : Str) (value : Value) (w w' : ℕ)
    → mib_agent current w ≡ (w', ok (oid, value))
    → is_end_of_mib_view value ≡ false
    → Shorter current oid
unfolding mib_agent is_end_of_mib_view
mib_agent_ascends current oid value w w' e entry = elim (Bool-cases (str_eq current base)) [
  | inl first ↦
      let q : codes "1.3.1" ≡ oid = (let e' = rw first at e in cc) in
      let c : current ≡ base = (str_eq_iff current base).0 first in
      omega (arith, ap length q, ap length c)
  | inr other ↦ elim (Bool-cases (str_eq current (codes "1.3.1"))) [
    | inl second ↦
        let q : codes "1.3.10" ≡ oid = (let e' = rw (other, second) at e in cc) in
        let c : current ≡ codes "1.3.1" = (str_eq_iff current (codes "1.3.1")).0 second in
        omega (arith, ap length q, ap length c)
    | inr behind ↦
        let q : end_of_mib_view ≡ value = (let e' = rw (other, behind) at e in cc) in
        absurd (let t = ap is_end_of_mib_view q ∙ entry in cc)
  ]
]

walk-ne-stuck_example : (walk mib_agent 10001 base 0).1 ≢ stuck
walk-ne-stuck_example =
    walk-ne-stuck mib_agent base Shorter (λ j less. omega arith) (λ i j k up more. omega arith)
      mib_agent_ascends 0
