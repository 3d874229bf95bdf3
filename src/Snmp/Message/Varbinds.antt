-- ===== src/Snmp/Message/Varbinds.antt =====
-- parseVarbinds on what an agent sends: any list of bindings, in its order, and any bytes at all.
use whatunga.Prelude.{ℕ, zero, suc, ◌+◌, ◌^◌, ◌≤◌, ◌<◌, arith, ◌≡◌, ◌≢◌, refl, ap, ◌∙◌, sym}
use whatunga.Prelude.{
  List, [], ◌∷◌, ◌++◌, append-nil, Str, All, length, drop, length-append, length-drop,
  drop-length-append,
}
use whatunga.Prelude.Maps.{Map, insert}
use whatunga.Snmp.{Result, ok, err, panic}
use whatunga.Snmp.Ber.{Tlv, encode_length, encode_tlv, decode_tlv, tag_oid, tag_sequence}
use whatunga.Snmp.Lengths.{length-encode_length}
use whatunga.Snmp.Tlvs.{decode_tlv-encode_tlv, decode_tlv_takes}
use whatunga.Snmp.Oid.{decode_oid}
use whatunga.Snmp.Message.{
  Value, decode_value, Outcome, done, stuck, or_fail, read_varbind, varbinds_from, parse_varbinds,
  varbind_bytes,
}

-- A binding as it is sent: the bytes of its name, and its value's tag and content.
pub record Binding : Type 0 where
  pub name : Str
  pub tag : ℕ
  pub content : Str

abbrev pub binding_bytes : Binding → Str
binding_bytes b = varbind_bytes (encode_tlv tag_oid b.name) (encode_tlv b.tag b.content)

abbrev pub bindings_bytes : List Binding → Str
bindings_bytes [] = []
bindings_bytes (b ∷ bs) = binding_bytes b ++ bindings_bytes bs

-- Short enough for a Go slice.
abbrev pub Fits : Binding → Type 0
Fits b = length b.name + length b.content + 40 < 2 ^ 63

abbrev pub value_of : ℕ → Str → Value
value_of tag content = decode_value (record { tag = tag; content = content; consumed = 0 })

-- The bindings put into a map one after the other: where a name stands twice, the last one wins.
abbrev pub store_all : Map Value → List Binding → Map Value
store_all m [] = m
store_all m (b ∷ bs) = store_all (insert (decode_oid b.name) (value_of b.tag b.content) m) bs

decode_value_content :
    (tag consumed : ℕ) (content : Str)
    → decode_value (record { tag = tag; content = content; consumed = consumed })
      ≡ value_of tag content
unfolding decode_value
decode_value_content tag consumed content = refl

pub length-encode_tlv :
    (tag : ℕ) (content : Str)
    → length content < 2 ^ 63
    → (length content + 2 ≤ length (encode_tlv tag content))
      × (length (encode_tlv tag content) ≤ length content + 10)
unfolding encode_tlv
length-encode_tlv tag content h =
    let n = length content in
    let field = length-encode_length n (omega arith) in
    let sum = length-append (encode_length n) content in
    (omega (arith, field, sum), omega (arith, field, sum))

pub or_fail-encode_tlv :
    (results : Map Value) (tag : ℕ) (content rest : Str) (f : Tlv → Outcome)
    → length content + 10 < 2 ^ 63
    → or_fail results (decode_tlv (encode_tlv tag content ++ rest)) f
      ≡ f (record { tag = tag; content = content; consumed = length (encode_tlv tag content) })
or_fail-encode_tlv results tag content rest f h =
    ap (λ r. or_fail results r f) (decode_tlv-encode_tlv tag content rest h)

read_varbind-binding_bytes :
    (results : Map Value) (b : Binding) (rest : Str) (f : Str → Value → Str → Outcome)
    → Fits b
    → read_varbind results (binding_bytes b ++ rest) f
      ≡ f (decode_oid b.name) (value_of b.tag b.content) rest
unfolding read_varbind varbind_bytes
read_varbind-binding_bytes results b rest f h =
    let name = encode_tlv tag_oid b.name in
    let value = encode_tlv b.tag b.content in
    let sum = length-append name value in
    let name_size = length-encode_tlv tag_oid b.name (omega arith) in
    let value_size = length-encode_tlv b.tag b.content (omega arith) in
    or_fail-encode_tlv results tag_sequence (name ++ value) rest _
      (omega (arith, sum, name_size, value_size))
    ∙ or_fail-encode_tlv results tag_oid b.name value _ (omega arith)
    ∙ ap
        (λ bytes. or_fail results (decode_tlv bytes) (λ value'.
          f (decode_oid b.name) (decode_value value')
            (drop (length (encode_tlv tag_sequence (name ++ value))) (binding_bytes b ++ rest))))
        (drop-length-append name value ∙ sym (append-nil value))
    ∙ or_fail-encode_tlv results b.tag b.content [] _ (omega arith)
    ∙ decoded (drop-length-append (encode_tlv tag_sequence (name ++ value)) rest)
  where
    decoded :
        {left : Str}
        → left ≡ rest
        → f
            (decode_oid b.name)
            (decode_value (record {
              tag = b.tag;
              content = b.content;
              consumed = length (encode_tlv b.tag b.content);
            }))
            left
          ≡ f (decode_oid b.name) (value_of b.tag b.content) rest
    decoded {left} e =
        ap (λ v. f (decode_oid b.name) v left)
          (decode_value_content b.tag (length (encode_tlv b.tag b.content)) b.content)
        ∙ ap (λ r. f (decode_oid b.name) (value_of b.tag b.content) r) e

binding_bytes-cons : (b : Binding) → (c : ℕ) × (s : Str) × (binding_bytes b ≡ c ∷ s)
unfolding varbind_bytes encode_tlv
binding_bytes-cons b = (_, _, refl)

varbinds_from-bindings_bytes :
    (fuel : ℕ) (results : Map Value) (bs : List Binding)
    → length bs ≤ fuel
    → All Fits bs
    → varbinds_from fuel results (bindings_bytes bs) ≡ done (store_all results bs)
varbinds_from-bindings_bytes fuel results [] le h = unfold varbinds_from in refl
varbinds_from-bindings_bytes zero results (b ∷ bs) le h = absurd (omega arith)
varbinds_from-bindings_bytes (suc fuel) results (b ∷ bs) le h =
    step (binding_bytes-cons b)
    ∙ read_varbind-binding_bytes results b (bindings_bytes bs) _ h.0
    ∙ varbinds_from-bindings_bytes fuel _ bs (omega arith) h.1
  where
    step :
        (c : ℕ) × (s : Str) × (binding_bytes b ≡ c ∷ s)
        → varbinds_from (suc fuel) results (binding_bytes b ++ bindings_bytes bs)
          ≡ read_varbind results
              (binding_bytes b ++ bindings_bytes bs)
              (λ name value rest. varbinds_from fuel (insert name value results) rest)
    step (c, s, e) = rw e (unfold varbinds_from in refl)

length-bindings_bytes : (bs : List Binding) → length bs ≤ length (bindings_bytes bs)
length-bindings_bytes [] = omega arith
length-bindings_bytes (b ∷ bs) =
    let (c, s, e) = binding_bytes-cons b in
    omega (
      arith,
      length-append (binding_bytes b) (bindings_bytes bs),
      ap length e,
      length-bindings_bytes bs,
    )

-- parseVarbinds reads every binding that an agent sends, of whatever tags and as far as a Go slice
-- can be long, into a map under its decoded name, the last one where a name stands twice.
pub parse_varbinds-bindings_bytes :
    (bs : List Binding) → All Fits bs → parse_varbinds (bindings_bytes bs) ≡ done (store_all [] bs)
unfolding parse_varbinds
parse_varbinds-bindings_bytes bs h =
    varbinds_from-bindings_bytes (length (bindings_bytes bs)) [] bs (length-bindings_bytes bs) h

pub or_fail-ne-stuck :
    {A : Type 0} (results : Map Value) (r : Result A) (f : A → Outcome)
    → ((a : A) → r ≡ ok a → f a ≢ stuck)
    → or_fail results r f ≢ stuck
or_fail-ne-stuck results (ok a) f h e = h a refl e
or_fail-ne-stuck results (err x) f h e = cc
or_fail-ne-stuck results panic f h e = cc

-- Each round of the loop leaves fewer bytes, or ends it with an error.
read_varbind_shrinks :
    (results : Map Value) (bytes : Str) (f : Str → Value → Str → Outcome)
    → ((name : Str) (value : Value) (rest : Str)
        → length rest < length bytes
        → f name value rest ≢ stuck)
    → read_varbind results bytes f ≢ stuck
unfolding read_varbind
read_varbind_shrinks results bytes f h = or_fail-ne-stuck results (decode_tlv bytes) _ (λ vb read.
    or_fail-ne-stuck results (decode_tlv vb.content) _ (λ name named.
      or_fail-ne-stuck results (decode_tlv (drop name.consumed vb.content)) _ (λ value valued.
        h (decode_oid name.content) (decode_value value) (drop vb.consumed bytes)
          (omega (arith, decode_tlv_takes bytes vb read, length-drop vb.consumed bytes)))))

varbinds_from-ne-stuck :
    (fuel : ℕ) (results : Map Value) (bytes : Str)
    → length bytes ≤ fuel
    → varbinds_from fuel results bytes ≢ stuck
unfolding varbinds_from
varbinds_from-ne-stuck fuel results [] le e = cc
varbinds_from-ne-stuck zero results (b ∷ bytes) le e = absurd (omega arith)
varbinds_from-ne-stuck (suc fuel) results (b ∷ bytes) le e =
    read_varbind_shrinks results (b ∷ bytes) _
      (λ name value rest less.
        varbinds_from-ne-stuck fuel (insert name value results) rest (omega arith))
      e

-- parseVarbinds ends on any bytes.
pub parse_varbinds-ne-stuck : (bytes : Str) → parse_varbinds bytes ≢ stuck
unfolding parse_varbinds
parse_varbinds-ne-stuck bytes = varbinds_from-ne-stuck (length bytes) [] bytes (omega arith)
