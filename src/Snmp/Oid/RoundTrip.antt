-- ===== src/Snmp/Oid/RoundTrip.antt =====
-- encodeOID and decodeOID against each other: on arcs, and on dotted text.
use whatunga.Prelude.{ℕ, ◌+◌, ◌*◌, ◌/◌, ◌%◌, ◌^◌, ◌≤◌, ◌<◌, arith, ◌≡◌, ◌≢◌, refl, ap, ◌∙◌, sym}
use whatunga.Prelude.{List, [], ◌∷◌, map, some, Str, All}
use whatunga.Prelude.Decimal.{format_uint, IsDigits, format_uint-IsDigits, parse_uint-format_uint}
use whatunga.Prelude.Split.{join, Without, split-join}
use whatunga.Snmp.Ber.{encode_tlv, tag_oid}
use whatunga.Snmp.Oid.{encode_arcs, parse_arcs, oid_content, encode_oid, decode_arcs, decode_oid}
use whatunga.Snmp.Oid.Arcs.{arcs_from-encode_arcs}

abbrev pub Is64Bit : List ℕ → Type 0
Is64Bit arcs = All (λ a. a < 2 ^ 64) arcs

-- Dotted text.
abbrev pub dotted : List ℕ → Str
dotted arcs = join b'.' (map format_uint arcs)

abbrev pub first_byte : ℕ → ℕ → ℕ
first_byte arc0 arc1 = (arc0 * 40 % 2 ^ 64 + arc1) % 2 ^ 64 % 256

decode_arcs_content :
    (b : ℕ) (arcs : List ℕ)
    → Is64Bit arcs
    → decode_arcs (b ∷ encode_arcs arcs) ≡ b / 40 ∷ b % 40 ∷ arcs
unfolding decode_arcs
decode_arcs_content b arcs h = ap (λ t. b / 40 ∷ b % 40 ∷ t) (arcs_from-encode_arcs arcs h)

-- The bytes of at least two 64-bit arcs decode to the same arcs from the third on; the first two
-- are the quotient and the remainder by 40 of the one byte that is left of 40 times the first
-- plus the second.
pub decode_arcs-oid_content :
    (arc0 arc1 : ℕ) (arcs : List ℕ)
    → Is64Bit arcs
    → let b = first_byte arc0 arc1 in
      (c : Str) × (oid_content (arc0 ∷ arc1 ∷ arcs) ≡ some c)
      × (decode_arcs c ≡ b / 40 ∷ b % 40 ∷ arcs)
unfolding oid_content
decode_arcs-oid_content arc0 arc1 arcs h =
    let b = first_byte arc0 arc1 in (b ∷ encode_arcs arcs, refl, decode_arcs_content b arcs h)

-- Where the second arc is 40 or more, as in the valid 2.100.3, and those from the third on are
-- 64-bit numbers, what encodeOID writes decodes to other arcs.
pub decode_arcs-ne-oid_content :
    (arc0 arc1 : ℕ) (arcs : List ℕ)
    → Is64Bit arcs
    → 40 ≤ arc1
    → (c : Str) × (oid_content (arc0 ∷ arc1 ∷ arcs) ≡ some c) × (decode_arcs c ≢ arc0 ∷ arc1 ∷ arcs)
decode_arcs-ne-oid_content arc0 arc1 arcs h large =
    let (c, written, read) = decode_arcs-oid_content arc0 arc1 arcs h in
    (c, written, λ e. ground (arith, sym read ∙ e))

IsDigits-Without : (s : Str) → IsDigits s → Without b'.' s
IsDigits-Without [] h = tt
IsDigits-Without (c ∷ s) h = let digit = h.0 in (ground arith, IsDigits-Without s h.1)

map-Without : (arcs : List ℕ) → All (Without b'.') (map format_uint arcs)
map-Without [] = tt
map-Without (arc ∷ arcs) =
    (IsDigits-Without (format_uint arc) (format_uint-IsDigits arc), map-Without arcs)

parse_arcs-map : (arcs : List ℕ) → Is64Bit arcs → parse_arcs (map format_uint arcs) ≡ some arcs
unfolding parse_arcs
parse_arcs-map [] h = refl
parse_arcs-map (arc ∷ arcs) h = rw (parse_uint-format_uint arc h.0, parse_arcs-map arcs h.1) refl

encode_oid-dotted :
    (arc : ℕ) (arcs : List ℕ) (c : Str)
    → Is64Bit (arc ∷ arcs)
    → oid_content (arc ∷ arcs) ≡ some c
    → encode_oid (dotted (arc ∷ arcs)) ≡ some (encode_tlv tag_oid c)
unfolding encode_oid
encode_oid-dotted arc arcs c h e = rw (
  split-join b'.' (format_uint arc) (map format_uint arcs) (map-Without (arc ∷ arcs)),
  parse_arcs-map (arc ∷ arcs) h,
  e,
)

decode_oid-dotted : (c : Str) (arcs : List ℕ) → decode_arcs c ≡ arcs → decode_oid c ≡ dotted arcs
unfolding decode_oid
decode_oid-dotted c arcs e = ap dotted e

-- Dotted text of at least two 64-bit arcs, the second below 40 and 40 times the first plus the
-- second below 256, is encoded without an error, and decodeOID gives the same text back.
pub decode_oid-encode_oid :
    (arc0 arc1 : ℕ) (arcs : List ℕ)
    → Is64Bit arcs
    → arc1 < 40
    → arc0 * 40 + arc1 < 256
    → let text = dotted (arc0 ∷ arc1 ∷ arcs) in
      (c : Str) × (encode_oid text ≡ some (encode_tlv tag_oid c)) × (decode_oid c ≡ text)
decode_oid-encode_oid arc0 arc1 arcs h low fits =
    let b : ℕ = first_byte arc0 arc1 in
    let quotient : b / 40 ≡ arc0 = omega arith in
    let remainder : b % 40 ≡ arc1 = omega arith in
    (
      b ∷ encode_arcs arcs,
      encode_oid-dotted arc0 (arc1 ∷ arcs) (b ∷ encode_arcs arcs) (omega arith, (omega arith, h))
          (unfold oid_content in refl),
      decode_oid-dotted (b ∷ encode_arcs arcs) (arc0 ∷ arc1 ∷ arcs)
          (decode_arcs_content b arcs h ∙ rw (quotient, remainder) refl),
    )
