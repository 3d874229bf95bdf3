-- ===== src/Snmp/Oid.antt =====
-- internal/snmp/oid.go: object identifiers, as arcs in base 128 and as dotted text.
pub mod Arcs
pub mod RoundTrip
use mathlib.Core.Logic.{dite}
use mathlib.Core.WellFounded.{Acc}
use native.Mathlib.Decide.{dec_lt}
use whatunga.Prelude.{ℕ, ◌+◌, ◌*◌, ◌/◌, ◌%◌, ◌^◌, ◌<◌, bit_and, bit_or, arith}
use whatunga.Prelude.Options.{◌>>=◌}
use whatunga.Prelude.{List, [], ◌∷◌, ◌++◌, map, Option, none, some, Str, ◌==◌, if◌then◌else◌}
use whatunga.Prelude.Order.{lt_wf}
use whatunga.Prelude.Decimal.{parse_uint, format_uint}
use whatunga.Prelude.Split.{split, join}
use whatunga.Snmp.Ber.{encode_tlv, tag_oid}

pub shift-lt : (v : ℕ) → 0 < v → v / 2 ^ 7 < v
shift-lt v h = omega arith

-- `for v := arc; v > 0; v >>= 7 { bytes = append([]byte{byte(v & 0x7F)}, bytes...) }`
unfoldable pub arc_loop : (v : ℕ) → Str → Acc ◌<◌ v → Str
arc_loop v bytes (Acc.intro _ smaller) =
    dite (dec_lt 0 v)
      (λ more.
        arc_loop (v / 2 ^ 7) (bit_and v 0x7f % 256 ∷ bytes) (smaller (v / 2 ^ 7) (shift-lt v more)))
      (λ _. bytes)

-- `for i := 0; i < len(bytes)-1; i++ { bytes[i] |= 0x80 }`
unfoldable pub mark : Str → Str
mark [] = []
mark (b ∷ []) = b ∷ []
mark (b ∷ next ∷ bytes) = bit_or b 0x80 ∷ mark (next ∷ bytes)

unfoldable pub encode_oid_arc : ℕ → Str
encode_oid_arc arc = if arc == 0 then 0 ∷ [] else mark (arc_loop arc [] (lt_wf.apply arc))

unfoldable pub encode_arcs : List ℕ → Str
encode_arcs [] = []
encode_arcs (arc ∷ arcs) = encode_oid_arc arc ++ encode_arcs arcs

-- The arcs of the text's parts; none where a part is no 64-bit number.
unfoldable pub parse_arcs : List Str → Option (List ℕ)
parse_arcs [] = some []
parse_arcs (part ∷ parts) = do arc ← parse_uint part; arcs ← parse_arcs parts; some (arc ∷ arcs)

-- The bytes of two arcs or more; none where there are fewer.
unfoldable pub oid_content : List ℕ → Option Str
oid_content [] = none
oid_content (arc0 ∷ []) = none
oid_content (arc0 ∷ arc1 ∷ arcs) =
    some ((arc0 * 40 % 2 ^ 64 + arc1) % 2 ^ 64 % 256 ∷ encode_arcs arcs)

-- Both of its errors, too few arcs and an arc that is no number, are `none`.
unfoldable pub encode_oid : Str → Option Str
encode_oid oid = do
  arcs ← parse_arcs (split b'.' oid)
  content ← oid_content arcs
  some (encode_tlv tag_oid content)

-- The arcs that the bytes after the first complete, behind the bits of the current one.
unfoldable pub arcs_from : ℕ → Str → List ℕ
arcs_from current [] = []
arcs_from current (b ∷ bytes) =
    let next = bit_or (current * 2 ^ 7 % 2 ^ 64) (bit_and b 0x7f) in
    let ended = arcs_from 0 bytes in
    let more = arcs_from next bytes in if bit_and b 0x80 == 0 then next ∷ ended else more

unfoldable pub decode_arcs : Str → List ℕ
decode_arcs [] = []
decode_arcs (first ∷ bytes) = first / 40 ∷ first % 40 ∷ arcs_from 0 bytes

-- No arcs join to the empty text, which is what empty content gives.
unfoldable pub decode_oid : Str → Str
decode_oid content = join b'.' (map format_uint (decode_arcs content))
