-- ===== src/Prelude/Utf8.antt =====
-- The bytes of a literal that is not ASCII.
use Prim.Native.Char.{code}
use Prim.Native.String.{String}
use whatunga.Prelude.{ℕ, ◌+◌, ◌/◌, ◌%◌, [], ◌∷◌, Str, ltb, if◌then◌else◌}

-- The bytes of one code point in front of a text.
abbrev pub encode_rune : ℕ → Str → Str
encode_rune c s =
    if ltb c 0x80
    then c ∷ s
    else if ltb c 0x800
    then (0xc0 + c / 64) ∷ (0x80 + c % 64) ∷ s
    else if ltb c 0x10000
    then (0xe0 + c / 4096) ∷ (0x80 + c / 64 % 64) ∷ (0x80 + c % 64) ∷ s
    else (0xf0 + c / 262144) ∷ (0x80 + c / 4096 % 64) ∷ (0x80 + c / 64 % 64) ∷ (0x80 + c % 64) ∷ s

abbrev pub utf8 : String → Str
utf8 String.[] = []
utf8 (String.◌∷◌ c s) = encode_rune (code c) (utf8 s)
