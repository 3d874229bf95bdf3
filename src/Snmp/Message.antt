-- ===== src/Snmp/Message.antt =====
-- The messages of internal/snmp/client.go: what buildMessage writes and parseResponse reads.
pub mod Varbinds
pub mod Responses
use whatunga.Prelude.{ℕ, zero, suc, ◌≡◌, refl, Bool, true, false, ◌||◌}
use whatunga.Prelude.{
  List, [], ◌∷◌, ◌++◌, Option, none, some, Str, ◌==◌, if◌then◌else◌, length, drop,
}
use whatunga.Prelude.{codes}
use whatunga.Prelude.Atoi.{format_int}
use whatunga.Prelude.Int.{ℤ, pos, eqb_ℤ}
use whatunga.Prelude.Maps.{Map, insert}
use whatunga.Snmp.{
  Error, Result, ok, err, panic, not_a_sequence, not_a_get_response, error_status, invalid_oid,
}
use whatunga.Snmp.Ber.{
  Tlv, encode_tlv, decode_tlv, tag_integer, tag_octet_str, tag_null, tag_oid, tag_sequence,
  tag_counter32, tag_gauge32, tag_time_ticks, tag_counter64, tag_no_such_object,
  tag_no_such_instance, tag_end_of_mib_view, tag_get_response,
}
use whatunga.Snmp.Integer.{encode_integer, decode_integer}
use whatunga.Snmp.Oid.{encode_oid, decode_oid}

-- The source's Kind string selects the field that counts: here it is a constructor's argument.
pub data Value : Type 0 where
  int counter gauge ticks : ℤ → Value
  octets oid : Str → Value
  null no_such_object no_such_instance end_of_mib_view : Value

-- String, which shows a value by its kind.
unfoldable pub value_string : Value → Str
value_string (int n) = format_int n
value_string (counter n) = format_int n
value_string (gauge n) = format_int n
value_string (ticks n) = format_int n
value_string (octets s) = s
value_string (oid s) = s
value_string null = codes "null"
value_string no_such_object = codes "no-such-object"
value_string no_such_instance = codes "no-such-instance"
value_string end_of_mib_view = codes "end-of-mib-view"

unfoldable pub decode_value : Tlv → Value
decode_value t =
    if t.tag == tag_integer
    then int (decode_integer t.content)
    else if t.tag == tag_octet_str
    then octets t.content
    else if t.tag == tag_oid
    then oid (decode_oid t.content)
    else if t.tag == tag_counter32 || t.tag == tag_counter64
    then counter (decode_integer t.content)
    else if t.tag == tag_gauge32
    then gauge (decode_integer t.content)
    else if t.tag == tag_time_ticks
    then ticks (decode_integer t.content)
    else if t.tag == tag_no_such_object
    then no_such_object
    else if t.tag == tag_no_such_instance
    then no_such_instance
    else if t.tag == tag_end_of_mib_view
    then end_of_mib_view
    else null

-- What a function gives that returns a map and an error: the map, and the error where there is
-- one. `stuck` is a loop that has used up its fuel.
pub data Outcome : Type 0 where
  done : Map Value → Outcome
  failed : Map Value → Error → Outcome
  crashed stuck : Outcome

-- `if err != nil { return results, err }`
abbrev pub or_fail {ℓ} : {A : Type ℓ} → Map Value → Result A → (A → Outcome) → Outcome
or_fail results (ok a) f = f a
or_fail results (err e) f = failed results e
or_fail results panic f = crashed

-- One round of the loop: the entry that stands first in `data`, and the data behind it.
unfoldable pub read_varbind : Map Value → Str → (Str → Value → Str → Outcome) → Outcome
read_varbind results bytes f = or_fail results (decode_tlv bytes) (λ vb.
    or_fail results (decode_tlv vb.content) (λ name.
      or_fail results (decode_tlv (drop name.consumed vb.content))
        (λ value. f (decode_oid name.content) (decode_value value) (drop vb.consumed bytes))))

unfoldable pub varbinds_from : ℕ → Map Value → Str → Outcome
varbinds_from fuel results [] = done results
varbinds_from zero results (b ∷ bytes) = stuck
varbinds_from (suc fuel) results (b ∷ bytes) =
    read_varbind results (b ∷ bytes)
      (λ name value rest. varbinds_from fuel (insert name value results) rest)

-- Each round takes two bytes at least, so that the data's length is fuel enough.
unfoldable pub parse_varbinds : Str → Outcome
parse_varbinds bytes = varbinds_from (length bytes) [] bytes

-- A TLV and the bytes behind it.
unfoldable pub next_tlv : Str → (Tlv → Str → Outcome) → Outcome
next_tlv bytes f = or_fail [] (decode_tlv bytes) (λ t. f t (drop t.consumed bytes))

unfoldable pub parse_pdu : Str → Outcome
parse_pdu content = next_tlv content (λ request_id content1. next_tlv content1 (λ status content2.
    if eqb_ℤ (decode_integer status.content) (pos 0)
    then next_tlv content2 (λ error_index content3.
      or_fail [] (decode_tlv content3) (λ varbinds. parse_varbinds varbinds.content))
    else failed [] (error_status (decode_integer status.content))))

unfoldable pub parse_response : Str → Outcome
parse_response bytes = or_fail [] (decode_tlv bytes) (λ envelope.
    if envelope.tag == tag_sequence
    then next_tlv envelope.content (λ version rest1. next_tlv rest1 (λ community rest2.
      or_fail [] (decode_tlv rest2) (λ pdu.
        if pdu.tag == tag_get_response
        then parse_pdu pdu.content
        else failed [] (not_a_get_response pdu.tag))))
    else failed [] (not_a_sequence envelope.tag))

unfoldable pub varbind_bytes : Str → Str → Str
varbind_bytes name value = encode_tlv tag_sequence (name ++ value)

-- The loop over the OIDs; its error is the one of encodeOID.
unfoldable pub name_varbinds : List Str → Result Str
name_varbinds [] = ok []
name_varbinds (name ∷ names) = with_name (encode_oid name) (name_varbinds names)
  where
    with_name : Option Str → Result Str → Result Str
    with_name none rest = err invalid_oid
    with_name (some name_bytes) (ok more) =
        ok (varbind_bytes name_bytes (encode_tlv tag_null []) ++ more)
    with_name (some name_bytes) (err e) = err e
    with_name (some name_bytes) panic = panic

unfoldable pub pdu_content : ℤ → ℤ → ℤ → Str → Str
pdu_content id status index varbinds =
    encode_integer id
    ++ (encode_integer status ++ (encode_integer index ++ encode_tlv tag_sequence varbinds))

unfoldable pub message_bytes : Str → ℕ → Str → Str
message_bytes community pdu_tag pdu =
    encode_tlv tag_sequence
      (encode_integer (pos 1) ++ (encode_tlv tag_octet_str community ++ encode_tlv pdu_tag pdu))

unfoldable pub build_message : Str → ℕ → ℕ → List Str → Result Str
build_message community pdu_tag request_id oids = built (name_varbinds oids)
  where
    built : Result Str → Result Str
    built (ok varbinds) =
        ok (message_bytes community pdu_tag (pdu_content (pos request_id) (pos 0) (pos 0) varbinds))
    built (err e) = err e
    built panic = panic
