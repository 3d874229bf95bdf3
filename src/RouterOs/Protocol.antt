-- ===== src/RouterOs/Protocol.antt =====
-- internal/routeros/protocol.go: words with a length in front, and sentences of words.
use whatunga.Prelude.{ℕ, zero, suc, ◌+◌, ◌*◌, ◌/◌, ◌%◌, ◌^◌, bit_and, bit_or, Bool, true, false}
use whatunga.Prelude.{List, [], ◌∷◌, ◌++◌, Str, ltb, ◌==◌, if◌then◌else◌, length}
use whatunga.Prelude.Bits.{and_not}
use whatunga.RouterOs.{Result, ok, err, stuck, ◌>>=◌, eof, bad_prefix, read_full}

-- The two bytes of `binary.Write(w, binary.BigEndian, uint16(length))`, and the four of PutUint32.
abbrev big_endian16 : ℕ → Str
big_endian16 n = n / 2 ^ 8 % 256 ∷ n % 256 ∷ []

abbrev big_endian32 : ℕ → Str
big_endian32 n = n / 2 ^ 24 % 256 ∷ n / 2 ^ 16 % 256 ∷ n / 2 ^ 8 % 256 ∷ n % 256 ∷ []

-- What writeLength writes, in one call of Write on every branch.
unfoldable pub length_bytes : ℕ → Str
length_bytes n =
    if ltb n 0x80
    then n % 256 ∷ []
    else if ltb n 0x4000
    then big_endian16 (bit_or n 0x8000)
    else if ltb n 0x20_0000
    then bit_or (n / 2 ^ 16 % 256) 0xc0 ∷ n / 2 ^ 8 % 256 ∷ n % 256 ∷ []
    else if ltb n 0x1000_0000
    then bit_or (n / 2 ^ 24 % 256) 0xe0 ∷ n / 2 ^ 16 % 256 ∷ n / 2 ^ 8 % 256 ∷ n % 256 ∷ []
    else 0xf0 ∷ big_endian32 (n % 2 ^ 32)

-- `int(x)<<8 | int(b2)`, and so on; the last clause of each is not reached, since `read_full`
-- returns as many bytes as it was asked for.
unfoldable pub join2 : ℕ → Str → ℕ
join2 x (b2 ∷ _) = bit_or (x * 2 ^ 8) b2
join2 x [] = 0

unfoldable pub join3 : ℕ → Str → ℕ
join3 x (r0 ∷ r1 ∷ _) = bit_or (bit_or (x * 2 ^ 16) (r0 * 2 ^ 8)) r1
join3 x _ = 0

unfoldable pub join4 : ℕ → Str → ℕ
join4 x (r0 ∷ r1 ∷ r2 ∷ _) = bit_or (bit_or (bit_or (x * 2 ^ 24) (r0 * 2 ^ 16)) (r1 * 2 ^ 8)) r2
join4 x _ = 0

-- `binary.BigEndian.Uint32`.
unfoldable pub uint32_of : Str → ℕ
uint32_of (r0 ∷ r1 ∷ r2 ∷ r3 ∷ _) = r0 * 2 ^ 24 + r1 * 2 ^ 16 + r2 * 2 ^ 8 + r3
uint32_of _ = 0

-- `n` more bytes, and the number made of them.
unfoldable pub read_rest : ℕ → (Str → ℕ) → Str → Result (ℕ × Str)
read_rest n join s = do (rest, s') ← read_full n s; ok (join rest, s')

-- The switch on the first byte.
unfoldable pub read_length_after : ℕ → Str → Result (ℕ × Str)
unfolding read_rest
read_length_after first s =
    if bit_and first 0x80 == 0x00
    then ok (first, s)
    else if bit_and first 0xc0 == 0x80
    then read_rest 1 (join2 (and_not first 0xc0)) s
    else if bit_and first 0xe0 == 0xc0
    then read_rest 2 (join3 (and_not first 0xe0)) s
    else if bit_and first 0xf0 == 0xe0
    then read_rest 3 (join4 (and_not first 0xf0)) s
    else if first == 0xf0
    then read_rest 4 uint32_of s
    else err (bad_prefix first)

unfoldable pub read_length : Str → Result (ℕ × Str)
unfolding read_length_after
read_length [] = err eof
read_length (first ∷ s) = read_length_after first s

-- What writeWord writes.
unfoldable pub word_bytes : Str → Str
word_bytes word = length_bytes (length word) ++ word

unfoldable pub read_word : Str → Result (Str × Str)
read_word s = do (n, s') ← read_length s; if n == 0 then ok ([], s') else read_full n s'

-- What writeSentence writes, where no write fails.
unfoldable pub sentence_bytes : List Str → Str
sentence_bytes [] = length_bytes 0
sentence_bytes (word ∷ words) = word_bytes word ++ sentence_bytes words

abbrev pub is_empty : Str → Bool
is_empty [] = true
is_empty (c ∷ s) = false

unfoldable pub read_words : ℕ → Str → List Str → Result (List Str × Str)
read_words zero s words = stuck
read_words (suc fuel) s words = do
  (word, s') ← read_word s
  let more = read_words fuel s' (words ++ word ∷ [])
  if is_empty word then ok (words, s') else more

-- Each word takes a byte at least, so one round more than there are bytes is enough.
unfoldable pub read_sentence : Str → Result (List Str × Str)
unfolding read_words
read_sentence s = read_words (suc (length s)) s []
