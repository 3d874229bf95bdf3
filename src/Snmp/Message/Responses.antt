-- ===== src/Snmp/Message/Responses.antt =====
-- parseResponse on the messages of an agent, and buildMessage's requests.
use whatunga.Prelude.{ℕ, ◌+◌, ◌^◌, ◌≤◌, ◌<◌, arith, ◌≡◌, ◌≢◌, refl, ap, ◌∙◌, sym}
use whatunga.Prelude.{
  Bool, true, false, [], ◌++◌, append-nil, Str, ◌==◌, if◌then◌else◌, length, drop, length-append,
  drop-length-append,
}
use whatunga.Prelude.Int.{ℤ, pos, eqb_ℤ, IsInt64}
use whatunga.Snmp.{Error, not_a_get_response, error_status}
use whatunga.Snmp.Ber.{
  Tlv, encode_tlv, decode_tlv, tag_integer, tag_octet_str, tag_sequence, tag_get_response,
}
use whatunga.Snmp.Integer.{integer_bytes, encode_integer}
use whatunga.Snmp.Integer.RoundTrip.{decode_integer-integer_bytes, length-integer_bytes}
use whatunga.Snmp.Message.{
  Outcome, failed, stuck, or_fail, next_tlv, parse_pdu, parse_response, parse_varbinds, pdu_content,
  message_bytes,
}
use whatunga.Snmp.Message.Varbinds.{
  or_fail-encode_tlv, or_fail-ne-stuck, length-encode_tlv, parse_varbinds-ne-stuck,
}

next_tlv-encode_tlv :
    (tag : ℕ) (content rest : Str) (f : Tlv → Str → Outcome)
    → length content + 10 < 2 ^ 63
    → next_tlv (encode_tlv tag content ++ rest) f
      ≡ f (record { tag = tag; content = content; consumed = length (encode_tlv tag content) }) rest
unfolding next_tlv
next_tlv-encode_tlv tag content rest f h =
    let t : Tlv = record {
      tag = tag;
      content = content;
      consumed = length (encode_tlv tag content);
    } in
    or_fail-encode_tlv [] tag content rest _ h
    ∙ ap (f t) (drop-length-append (encode_tlv tag content) rest)

next_tlv-encode_integer :
    (n : ℤ) (rest : Str) (f : Tlv → Str → Outcome)
    → IsInt64 n
    → next_tlv (encode_integer n ++ rest) f
      ≡ f
          (record {
            tag = tag_integer;
            content = integer_bytes n;
            consumed = length (encode_integer n);
          })
          rest
unfolding encode_integer
next_tlv-encode_integer n rest f h =
    next_tlv-encode_tlv tag_integer (integer_bytes n) rest f
      (omega (arith, length-integer_bytes n h))

pub length-encode_integer : (n : ℤ) → IsInt64 n → length (encode_integer n) ≤ 20
unfolding encode_integer
length-encode_integer n h =
    let size = length-integer_bytes n h in
    omega (arith, size, length-encode_tlv tag_integer (integer_bytes n) (omega (arith, size)))

after_status : ℤ → Str → Outcome
after_status status rest =
    if eqb_ℤ status (pos 0)
    then next_tlv rest (λ error_index content3.
      or_fail [] (decode_tlv content3) (λ varbinds. parse_varbinds varbinds.content))
    else failed [] (error_status status)

parse_pdu_status :
    (id status : ℤ) (rest : Str)
    → IsInt64 id
    → IsInt64 status
    → parse_pdu (encode_integer id ++ (encode_integer status ++ rest)) ≡ after_status status rest
unfolding parse_pdu after_status
parse_pdu_status id status rest hi hs =
    next_tlv-encode_integer id (encode_integer status ++ rest) _ hi
    ∙ next_tlv-encode_integer status rest _ hs
    ∙ ap (λ n. after_status n rest) (decode_integer-integer_bytes status hs)

parse_pdu_ok :
    (id index : ℤ) (varbinds : Str)
    → IsInt64 id
    → IsInt64 index
    → length varbinds + 10 < 2 ^ 63
    → parse_pdu (pdu_content id (pos 0) index varbinds) ≡ parse_varbinds varbinds
unfolding pdu_content
parse_pdu_ok id index varbinds hi hx fits =
    parse_pdu_status id (pos 0) (encode_integer index ++ encode_tlv tag_sequence varbinds) hi
      (omega arith)
    ∙ (unfold after_status in
        next_tlv-encode_integer index (encode_tlv tag_sequence varbinds) _ hx
        ∙ ap (λ bytes. or_fail [] (decode_tlv bytes) (λ t. parse_varbinds t.content))
            (sym (append-nil (encode_tlv tag_sequence varbinds)))
        ∙ or_fail-encode_tlv [] tag_sequence varbinds [] _ fits)

parse_pdu_failed :
    (id status index : ℤ) (varbinds : Str)
    → IsInt64 id
    → IsInt64 status
    → eqb_ℤ status (pos 0) ≡ false
    → parse_pdu (pdu_content id status index varbinds) ≡ failed [] (error_status status)
unfolding pdu_content
parse_pdu_failed id status index varbinds hi hs ne =
    parse_pdu_status id status (encode_integer index ++ encode_tlv tag_sequence varbinds) hi hs
    ∙ (unfold after_status in rw ne refl)

after_pdu : ℕ → Str → Outcome
after_pdu tag pdu =
    if tag == tag_get_response then parse_pdu pdu else failed [] (not_a_get_response tag)

parse_response-message_bytes :
    (community : Str) (tag : ℕ) (pdu rest : Str)
    → length community + length pdu + 80 < 2 ^ 63
    → parse_response (message_bytes community tag pdu ++ rest) ≡ after_pdu tag pdu
unfolding parse_response message_bytes after_pdu
parse_response-message_bytes community tag pdu rest h =
    let version = encode_integer (pos 1) in
    let version_size : length version ≤ 20 = length-encode_integer (pos 1) (omega arith) in
    let named = encode_tlv tag_octet_str community in
    let inner = encode_tlv tag pdu in
    let named_size = length-encode_tlv tag_octet_str community (omega arith) in
    let inner_size = length-encode_tlv tag pdu (omega arith) in
    let sum = length-append version (named ++ inner) in
    let sum_named = length-append named inner in
    or_fail-encode_tlv [] tag_sequence (version ++ (named ++ inner)) rest _
      (omega (arith, version_size, named_size, inner_size, sum, sum_named))
    ∙ next_tlv-encode_integer (pos 1) (named ++ inner) _ (omega arith)
    ∙ next_tlv-encode_tlv tag_octet_str community inner _ (omega arith)
    ∙ ap
        (λ bytes. or_fail [] (decode_tlv bytes) (λ t.
          if t.tag == tag_get_response
          then parse_pdu t.content
          else failed [] (not_a_get_response t.tag)))
        (sym (append-nil inner))
    ∙ or_fail-encode_tlv [] tag pdu [] _ (omega arith)

-- A community and bindings that are short enough for a Go slice.
abbrev pub Sendable : Str → Str → Type 0
Sendable community varbinds = length community + length varbinds + 200 < 2 ^ 63

length-pdu_content :
    (id status index : ℤ) (varbinds : Str)
    → IsInt64 id
    → IsInt64 status
    → IsInt64 index
    → length varbinds < 2 ^ 63
    → length (pdu_content id status index varbinds) ≤ length varbinds + 70
unfolding pdu_content
length-pdu_content id status index varbinds hi hs hx small =
    let list = encode_tlv tag_sequence varbinds in
    omega (
      arith,
      length-append (encode_integer id) (encode_integer status ++ (encode_integer index ++ list)),
      length-append (encode_integer status) (encode_integer index ++ list),
      length-append (encode_integer index) list,
      length-encode_tlv tag_sequence varbinds small,
      length-encode_integer id hi,
      length-encode_integer status hs,
      length-encode_integer index hx,
    )

-- parseResponse on a response of an agent with the error status 0 gives what parseVarbinds reads
-- in its bindings, whatever the community, the request-id, the error index and the bytes behind,
-- as far as a Go slice can be long and the numbers are int64.
pub parse_response-pdu_content :
    (community : Str) (id index : ℤ) (varbinds rest : Str)
    → IsInt64 id
    → IsInt64 index
    → Sendable community varbinds
    → parse_response
        (message_bytes community tag_get_response (pdu_content id (pos 0) index varbinds) ++ rest)
      ≡ parse_varbinds varbinds
parse_response-pdu_content community id index varbinds rest hi hx sent =
    let size = length-pdu_content id (pos 0) index varbinds hi (omega arith) hx (omega arith) in
    parse_response-message_bytes community tag_get_response (pdu_content id (pos 0) index varbinds)
      rest (omega (arith, size))
    ∙ (unfold after_pdu in parse_pdu_ok id index varbinds hi hx (omega arith))

-- parseResponse on a response with an error status other than 0 gives no map, and the error that
-- names the status, as far as a Go slice can be long and the numbers are int64.
pub parse_response_failed :
    (community : Str) (id status index : ℤ) (varbinds rest : Str)
    → IsInt64 id
    → IsInt64 status
    → IsInt64 index
    → eqb_ℤ status (pos 0) ≡ false
    → Sendable community varbinds
    → parse_response
        (message_bytes community tag_get_response (pdu_content id status index varbinds) ++ rest)
      ≡ failed [] (error_status status)
parse_response_failed community id status index varbinds rest hi hs hx ne sent =
    let size = length-pdu_content id status index varbinds hi hs hx (omega arith) in
    parse_response-message_bytes community tag_get_response (pdu_content id status index varbinds)
      rest (omega (arith, size))
    ∙ (unfold after_pdu in parse_pdu_failed id status index varbinds hi hs ne)

next_tlv-ne-stuck :
    (bytes : Str) (f : Tlv → Str → Outcome)
    → ((t : Tlv) (rest : Str) → f t rest ≢ stuck)
    → next_tlv bytes f ≢ stuck
unfolding next_tlv
next_tlv-ne-stuck bytes f h =
    or_fail-ne-stuck [] (decode_tlv bytes) _ (λ t read. h t (drop t.consumed bytes))

if-ne-stuck :
    (b : Bool) (x : Outcome) (e : Error) → x ≢ stuck → (if b then x else failed [] e) ≢ stuck
if-ne-stuck false x e h = λ q. cc
if-ne-stuck true x e h = h

parse_pdu-ne-stuck : (content : Str) → parse_pdu content ≢ stuck
unfolding parse_pdu
parse_pdu-ne-stuck content = next_tlv-ne-stuck content _ (λ request_id content1.
    next_tlv-ne-stuck content1 _ (λ status content2. if-ne-stuck _ _ _ (
      next_tlv-ne-stuck content2 _ (λ error_index content3.
        or_fail-ne-stuck [] (decode_tlv content3) _
          (λ varbinds read. parse_varbinds-ne-stuck varbinds.content)))))

-- parseResponse ends on any datagram.
pub parse_response-ne-stuck : (bytes : Str) → parse_response bytes ≢ stuck
unfolding parse_response
parse_response-ne-stuck bytes = or_fail-ne-stuck [] (decode_tlv bytes) _ (λ envelope read.
    if-ne-stuck _ _ _ (
      next_tlv-ne-stuck envelope.content _ (λ version rest1.
        next_tlv-ne-stuck rest1 _ (λ community rest2.
          or_fail-ne-stuck [] (decode_tlv rest2) _
            (λ pdu got. if-ne-stuck _ _ _ (parse_pdu-ne-stuck pdu.content))))))
