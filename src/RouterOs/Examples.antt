-- ===== src/RouterOs/Examples.antt =====
-- The RouterOS client on concrete bytes, and the theorems at concrete inputs.
use whatunga.Prelude.{◌≡◌, refl, true, arith}
use whatunga.Prelude.{List, [], ◌∷◌, ◌++◌, map, Str, codes, All}
use whatunga.RouterOs.{ok, err, eof, bad_prefix, unexpected_eof, read_full}
use whatunga.RouterOs.Protocol.{length_bytes, read_length, sentence_bytes, read_sentence}
use whatunga.RouterOs.Length.{length_bytes-prefix_code}
use whatunga.RouterOs.Sentence.{IsWord, read_sentence-sentence_bytes}
use whatunga.RouterOs.Client.{Client, done, run, parse_attribute_words}
use whatunga.RouterOs.Reply.{re_bytes, done_bytes}
use whatunga.RouterOs.Run.{run-done}
use whatunga.RouterOs.Attributes.{attribute_word}

-- TestLengthRoundTrip's boundaries.
lengths :
    (length_bytes 0x7f ≡ 0x7f ∷ [])
    × (length_bytes 0x80 ≡ 0x80 ∷ 0x80 ∷ [])
    × (length_bytes 0x4000 ≡ 0xc0 ∷ 0x40 ∷ 0x00 ∷ [])
    × (length_bytes 0x1000_0000 ≡ 0xf0 ∷ 0x10 ∷ 0 ∷ 0 ∷ 0 ∷ [])
unfolding length_bytes
lengths = (refl, refl, refl, refl)

length_errors :
    (read_length [] ≡ err eof)
    × (read_length (0x80 ∷ []) ≡ err eof)
    × (read_length (0xc0 ∷ 1 ∷ []) ≡ err unexpected_eof)
    × (read_length (0xf8 ∷ []) ≡ err (bad_prefix 0xf8))
unfolding read_length read_full
length_errors = (refl, refl, refl, refl)

length_bytes-prefix_code_example : length_bytes 300 ≡ 0x81 ∷ 0x2c ∷ []
length_bytes-prefix_code_example = length_bytes-prefix_code 300

abbrev words : List Str
words = codes "/login" ∷ codes "=name=admin" ∷ []

words-IsWord : All IsWord words
words-IsWord = ((omega arith, λ e. cc), ((omega arith, λ e. cc), tt))

read_sentence-sentence_bytes_example :
    read_sentence (sentence_bytes words ++ 9 ∷ []) ≡ ok (words, 9 ∷ [])
read_sentence-sentence_bytes_example = read_sentence-sentence_bytes words (9 ∷ []) words-IsWord

abbrev row : List Str
row = codes "=name=ether1" ∷ codes "=running=true" ∷ []

abbrev client : Str → Client
client incoming = record { is_open = true; sent = []; incoming = incoming }

row-IsWord : All IsWord row
row-IsWord = ((omega arith, λ e. cc), ((omega arith, λ e. cc), tt))

run-done_example :
    run (client (re_bytes (row ∷ []) ++ (done_bytes ++ 1 ∷ []))) (codes "/interface/print") []
    ≡ ok (
      record { rows = map parse_attribute_words (row ∷ []); status = done },
      record {
        is_open = true;
        sent = [] ++ sentence_bytes (codes "/interface/print" ∷ []);
        incoming = 1 ∷ [];
      },
    )
run-done_example =
    run-done (client (re_bytes (row ∷ []) ++ (done_bytes ++ 1 ∷ []))) (codes "/interface/print") []
      (row ∷ []) (1 ∷ []) refl (row-IsWord, tt) refl

abbrev trap_words : List Str
trap_words = attribute_word (codes "message", codes "no such command") ∷ []

trap_words-IsWord : All IsWord trap_words
trap_words-IsWord = ((omega arith, λ e. cc), tt)
