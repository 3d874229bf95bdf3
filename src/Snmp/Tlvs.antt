-- ===== src/Snmp/Tlvs.antt =====
-- decodeTLV: the round trip, the bounds of what it returns, and the input on which it panics.
use native.Mathlib.Decide.{dec_lt}
use whatunga.Prelude.{ℕ, ◌+◌, ◌-◌, ◌%◌, ◌^◌, ◌≤◌, ◌<◌, arith, ◌≡◌, ◌≢◌, ◌⊎◌, ap, ◌∙◌, inl, inr}
use whatunga.Prelude.{[], ◌∷◌, ◌++◌, append_assoc, Str, IsBytes, length, drop}
use whatunga.Prelude.{
  length-append, take-length-append, drop-length-append, length-take, length-drop,
}
use whatunga.Snmp.{ok, panic, bind-eq-ok, Result-cases}
use whatunga.Snmp.Ber.{Tlv, encode_length, decode_length, encode_tlv, decode_tlv, cut_content}
use whatunga.Snmp.Lengths.{
  be_value, decode_length_long, decode_length-encode_length, length-encode_length,
  decode_length_takes, decode_length_small, decode_length-ne-panic,
}

-- On data with a header of `start` bytes and its whole content behind it, the content is cut out.
cut_content_whole :
    (header content rest : Str) (tag : ℕ)
    → length header + length content < 2 ^ 63
    → cut_content (header ++ (content ++ rest)) tag (length header) (length header + length content)
      ≡ ok (record { tag = tag; content = content; consumed = length header + length content })
unfolding cut_content
cut_content_whole header content rest tag h =
    let high = length header + length content in
    let width : high - length header ≡ length content = omega arith in
    ground (
      arith,
      width,
      length-append header (content ++ rest),
      length-append content rest,
      drop-length-append header (content ++ rest),
      take-length-append content rest,
    )

-- decodeTLV reads back any tag and content that encodeTLV wrapped, as far as a Go slice can be
-- long, says how many bytes that took, and does not look at what follows.
pub decode_tlv-encode_tlv :
    (tag : ℕ) (content rest : Str)
    → length content + 10 < 2 ^ 63
    → decode_tlv (encode_tlv tag content ++ rest)
      ≡ ok (record { tag = tag; content = content; consumed = length (encode_tlv tag content) })
unfolding encode_tlv
decode_tlv-encode_tlv tag content rest h =
    let n = length content in
    let field = encode_length n in
    let bounds = length-encode_length n (omega arith) in
    let total : 1 + length field + n ≡ length ((tag ∷ field) ++ content) =
      omega (arith, length-append (tag ∷ field) content) in
    let unwrapped : (1 + length field + n) % 2 ^ 64 ≡ length (tag ∷ field) + n = omega arith in
    ap decode_tlv (append_assoc (tag ∷ field) content rest)
    ∙ header_read tag field (content ++ rest) n (bounds.0)
        (decode_length-encode_length n (content ++ rest) (omega arith))
    ∙ ap (λ (k : ℕ). cut_content ((tag ∷ field) ++ (content ++ rest)) tag (1 + length field) k)
        unwrapped
    ∙ ap
        (λ (s : ℕ).
          cut_content ((tag ∷ field) ++ (content ++ rest)) tag s (length (tag ∷ field) + n))
        (let e : 1 + length field ≡ length (tag ∷ field) = omega arith in e)
    ∙ cut_content_whole (tag ∷ field) content rest tag (omega arith)
    ∙ ap (λ (k : ℕ). ok (record { tag = tag; content = content; consumed = k }))
        (omega (arith, total))
  where
    header_read :
        (tag : ℕ) (field more : Str) (n : ℕ)
        → 0 < length field
        → decode_length (field ++ more) ≡ ok (n, length field)
        → decode_tlv ((tag ∷ field) ++ more)
          ≡ cut_content
              ((tag ∷ field) ++ more)
              tag
              (1 + length field)
              ((1 + length field + n) % 2 ^ 64)
    header_read tag [] more n room e = absurd (omega arith)
    header_read tag (b ∷ field) more n room e = unfold decode_tlv in rw e

-- What is decoded lies within the data: decodeTLV takes at least two bytes and at most all of
-- them, and the content is shorter by the two bytes or more of tag and length.
pub decode_tlv_takes :
    (bytes : Str) (t : Tlv)
    → decode_tlv bytes ≡ ok t
    → (2 ≤ t.consumed) × (t.consumed ≤ length bytes) × (length t.content + 2 ≤ t.consumed)
unfolding decode_tlv
decode_tlv_takes [] t e = cc
decode_tlv_takes (tag ∷ []) t e = cc
decode_tlv_takes (tag ∷ b ∷ rest) t e =
    let bytes = tag ∷ b ∷ rest in
    let ((w, size), read, cut) =
      bind-eq-ok (decode_length (b ∷ rest))
        (λ (w, size). cut_content bytes tag (1 + size) ((1 + size + w) % 2 ^ 64)) e in
    let field = decode_length_takes (b ∷ rest) w size read in
    within bytes tag (1 + size) ((1 + size + w) % 2 ^ 64) t (omega (arith, field)) cut
  where
    within :
        (bytes : Str) (tag start high : ℕ) (t : Tlv)
        → 2 ≤ start
        → cut_content bytes tag start high ≡ ok t
        → (2 ≤ t.consumed) × (t.consumed ≤ length bytes) × (length t.content + 2 ≤ t.consumed)
    within bytes tag start high t room e =
        unfold cut_content in
        ground (arith, length-take (high - start) (drop start bytes), length-drop start bytes)

cut_content_negative :
    (bytes : Str) (tag start high : ℕ)
    → start ≤ length bytes
    → start < 2 ^ 63
    → (high < start) ⊎ (2 ^ 63 ≤ high)
    → cut_content bytes tag start high ≡ panic
unfolding cut_content
cut_content_negative bytes tag start high room small bad = ground arith

-- Ten more than a negative word is negative, or has wrapped to less than ten.
wraps_negative :
    (w : ℕ)
    → 2 ^ 63 ≤ w
    → w < 2 ^ 64
    → ((10 + w % 2 ^ 64) % 2 ^ 64 < 10) ⊎ (2 ^ 63 ≤ (10 + w % 2 ^ 64) % 2 ^ 64)
wraps_negative w lower upper = elim (dec_lt ((10 + w % 2 ^ 64) % 2 ^ 64) 10) [
  | yes wrapped ↦ inl wrapped
  | no kept ↦ inr (omega arith)
]

-- A length field of eight bytes whose first is 0x80 or more is a negative int: decodeTLV then
-- passes its check of the content's length and panics, whatever the tag and whatever follows.
pub decode_tlv_panics :
    (tag b0 b1 b2 b3 b4 b5 b6 b7 : ℕ) (rest : Str)
    → let bytes = b0 ∷ b1 ∷ b2 ∷ b3 ∷ b4 ∷ b5 ∷ b6 ∷ b7 ∷ [] in
      IsBytes bytes → 0x80 ≤ b0 → decode_tlv (tag ∷ 0x88 ∷ (bytes ++ rest)) ≡ panic
decode_tlv_panics tag b0 b1 b2 b3 b4 b5 b6 b7 rest h high =
    let bytes = b0 ∷ b1 ∷ b2 ∷ b3 ∷ b4 ∷ b5 ∷ b6 ∷ b7 ∷ [] in
    let w : ℕ = be_value 0 bytes in
    let read = decode_length_long bytes rest h (omega arith) (omega arith) in
    let lower : 2 ^ 63 ≤ w = omega arith in
    let upper : w < 2 ^ 64 = omega arith in
    let negative = wraps_negative w lower upper in
    unfold decode_tlv in
    rw read (
      cut_content_negative (tag ∷ 0x88 ∷ (bytes ++ rest)) tag 10 ((10 + w % 2 ^ 64) % 2 ^ 64)
        (omega arith) (omega arith) negative)

cut_content_positive :
    (bytes : Str) (tag start high : ℕ)
    → start ≤ high
    → high < 2 ^ 63
    → cut_content bytes tag start high ≢ panic
unfolding cut_content
cut_content_positive bytes tag start high room small e = ground arith

-- decodeTLV does not panic on bytes whose length field announces fewer than eight bytes.
pub decode_tlv-ne-panic :
    (tag first : ℕ) (rest : Str)
    → IsBytes rest
    → first < 0x88
    → decode_tlv (tag ∷ first ∷ rest) ≢ panic
unfolding decode_tlv
decode_tlv-ne-panic tag first rest h small e = elim (Result-cases (decode_length (first ∷ rest))) [
  | inl ((w, size), read) ↦
      let (fits, few) = decode_length_small first rest w size h small read in
      let sum : (1 + size + w) % 2 ^ 64 ≡ 1 + size + w = omega arith in
      let bytes = tag ∷ first ∷ rest in
      cut_content_positive bytes tag (1 + size) ((1 + size + w) % 2 ^ 64) (omega (arith, sum))
        (omega (arith, sum)) (rw read at e)
  | inr (inl (x, failed)) ↦ ground arith
  | inr (inr crashed) ↦ decode_length-ne-panic (first ∷ rest) crashed
]
