-- ===== src/RouterOs/Sentence.antt =====
-- Words and sentences: round trips, and the end of the reading loop.
use whatunga.Prelude.{
  ℕ, zero, suc, ◌%◌, ◌^◌, ◌≤◌, ◌<◌, ◌≡◌, ◌≢◌, refl, sym, ap, ◌∙◌, arith, inl, inr,
}
use whatunga.Prelude.{
  List, [], ◌∷◌, ◌++◌, append-nil, append_assoc, Str, ◌==◌, if◌then◌else◌, length, length-append,
  All,
}
use whatunga.RouterOs.{Result, ok, err, stuck, ◌>>=◌, read_full, bind-eq-ok, Result-cases}
use whatunga.RouterOs.Protocol.{
  length_bytes, read_length, word_bytes, read_word, sentence_bytes, read_words, read_sentence,
}
use whatunga.RouterOs.Protocol.{read_length_after, read_rest, join2, join3, join4, uint32_of}
use whatunga.Prelude.Bits.{and_not}
use whatunga.RouterOs.Length.{
  length_bytes-prefix_code, prefix_code, read_length-length_bytes, read_length_takes,
  read_full-append, read_full_takes,
}

-- A word that a 32-bit length can announce.
abbrev pub IsShort : Str → Type 0
IsShort word = length word < 2 ^ 32

-- A word that does not end a sentence.
abbrev pub IsWord : Str → Type 0
IsWord word = IsShort word × (word ≢ [])

-- readWord reads back any word shorter than 2 ^ 32 bytes, the empty one included, and leaves what
-- follows.
pub read_word-word_bytes :
    (word rest : Str) → IsShort word → read_word (word_bytes word ++ rest) ≡ ok (word, rest)
unfolding read_word word_bytes
read_word-word_bytes word rest h =
    let n = length word in
    let small : n % 2 ^ 32 ≡ n = omega arith in
    let read : read_length (length_bytes n ++ (word ++ rest)) ≡ ok (n, word ++ rest) =
      read_length-length_bytes n (word ++ rest) ∙ ap (λ (k : ℕ). ok (k, word ++ rest)) small in
    rw (append_assoc (length_bytes n) word rest, read) (tail word rest)
  where
    tail :
        (word rest : Str)
        → (if length word == 0
            then ok ([], word ++ rest)
            else read_full (length word) (word ++ rest))
          ≡ ok (word, rest)
    tail [] rest = refl
    tail (c ∷ word) rest = rw (read_full-append (c ∷ word) rest) (ground arith)

-- A word that was read took at least a byte.
pub read_word_takes : (s rest word : Str) → read_word s ≡ ok (word, rest) → length rest < length s
unfolding read_word
read_word_takes s rest word e =
    let ((n, s'), read, back) =
      bind-eq-ok (read_length s) (λ (k, t). if k == 0 then ok ([], t) else read_full k t) e in
    ground (arith, read_length_takes s s' n read, read_full_takes n s' word rest)

read_words_last :
    (fuel : ℕ) (words : List Str) (rest : Str)
    → read_words (suc fuel) (sentence_bytes [] ++ rest) words ≡ ok (words, rest)
unfolding read_words sentence_bytes
read_words_last fuel words rest = rw (empty_read rest)
  where
    empty_read : (rest : Str) → read_word (length_bytes 0 ++ rest) ≡ ok ([], rest)
    empty_read rest =
        let e : word_bytes [] ≡ length_bytes 0 =
          (unfold word_bytes in append-nil (length_bytes 0)) in
        rw e at (read_word-word_bytes [] rest (omega arith))

read_words-sentence_bytes :
    (words : List Str) (fuel : ℕ) (rest : Str) (before : List Str)
    → All IsWord words
    → length words < fuel
    → read_words fuel (sentence_bytes words ++ rest) before ≡ ok (before ++ words, rest)
unfolding read_words sentence_bytes
read_words-sentence_bytes words zero rest before h f = absurd (omega arith)
read_words-sentence_bytes [] (suc fuel) rest before h f =
    read_words_last fuel before rest ∙ rw append-nil
read_words-sentence_bytes ([] ∷ words) (suc fuel) rest before h f = absurd (h.0.1 refl)
read_words-sentence_bytes ((c ∷ w) ∷ words) (suc fuel) rest before (hw, hs) f =
    let word = c ∷ w in
    rw
      (
        append_assoc (word_bytes word) (sentence_bytes words) rest,
        read_word-word_bytes word (sentence_bytes words ++ rest) hw.0,
      )
      (read_words-sentence_bytes words fuel rest (before ++ word ∷ []) hs (omega arith)
        ∙ ap (λ ws. ok (ws, rest)) (append_assoc before (word ∷ []) words))

length-word_bytes : (word : Str) → 0 < length (word_bytes word)
unfolding word_bytes
length-word_bytes word =
    rw (length_bytes-prefix_code (length word), length-append)
      (let some_byte : 0 < length (prefix_code (length word)) = ground arith in omega arith)

pub length-sentence_bytes : (words : List Str) → length words ≤ length (sentence_bytes words)
unfolding sentence_bytes
length-sentence_bytes [] = omega arith
length-sentence_bytes (word ∷ words) = omega (
  arith,
  length-append (word_bytes word) (sentence_bytes words),
  length-word_bytes word,
  length-sentence_bytes words,
)

-- readSentence reads back what writeSentence wrote, and leaves what follows, if every word is
-- shorter than 2 ^ 32 bytes and none is empty.
pub read_sentence-sentence_bytes :
    (words : List Str) (rest : Str)
    → All IsWord words
    → read_sentence (sentence_bytes words ++ rest) ≡ ok (words, rest)
unfolding read_sentence
read_sentence-sentence_bytes words rest h =
    let s = sentence_bytes words ++ rest in
    read_words-sentence_bytes words (suc (length s)) rest [] h
      (omega (arith, length-sentence_bytes words, length-append (sentence_bytes words) rest))

sentence_bytes-append_empty :
    (words more : List Str) (rest : Str)
    → sentence_bytes (words ++ [] ∷ more) ++ rest
      ≡ sentence_bytes words ++ (sentence_bytes more ++ rest)
unfolding sentence_bytes word_bytes
sentence_bytes-append_empty [] more rest =
    rw append-nil (append_assoc (length_bytes 0) (sentence_bytes more) rest)
sentence_bytes-append_empty (word ∷ words) more rest =
    let head = length_bytes (length word) ++ word in
    append_assoc head (sentence_bytes (words ++ [] ∷ more)) rest
    ∙ ap (λ xs. head ++ xs) (sentence_bytes-append_empty words more rest)
    ∙ sym (append_assoc head (sentence_bytes words) (sentence_bytes more ++ rest))

-- An empty word among those that writeSentence is given ends the sentence for the reader: it gets
-- the words before it, and the words behind it are left to be read as a sentence of their own.
pub read_sentence_cut :
    (words more : List Str) (rest : Str)
    → All IsWord words
    → read_sentence (sentence_bytes (words ++ [] ∷ more) ++ rest)
      ≡ ok (words, sentence_bytes more ++ rest)
read_sentence_cut words more rest h =
    rw (sentence_bytes-append_empty words more rest)
      (read_sentence-sentence_bytes words (sentence_bytes more ++ rest) h)

read_full-ne-stuck : (n : ℕ) (s : Str) → read_full n s ≢ stuck
unfolding read_full
read_full-ne-stuck n s e = ground arith

read_rest-ne-stuck : (n : ℕ) (join : Str → ℕ) (s : Str) → read_rest n join s ≢ stuck
unfolding read_rest
read_rest-ne-stuck n join s = ground (arith, read_full-ne-stuck n s)

read_length-ne-stuck : (s : Str) → read_length s ≢ stuck
unfolding read_length read_length_after
read_length-ne-stuck [] = λ e. cc
read_length-ne-stuck (first ∷ s) = ground (
  arith,
  read_rest-ne-stuck 1 (join2 (and_not first 0xc0)) s,
  read_rest-ne-stuck 2 (join3 (and_not first 0xe0)) s,
  read_rest-ne-stuck 3 (join4 (and_not first 0xf0)) s,
  read_rest-ne-stuck 4 uint32_of s,
)

read_word-ne-stuck : (s : Str) → read_word s ≢ stuck
unfolding read_word
read_word-ne-stuck s = go (read_length s) (read_length-ne-stuck s)
  where
    go :
        (r : Result (ℕ × Str))
        → r ≢ stuck
        → (r >>= (λ (n, t). if n == 0 then ok ([], t) else read_full n t)) ≢ stuck
    go (ok (n, t)) h e = ground (arith, read_full-ne-stuck n t)
    go (err x) h e = cc
    go stuck h e = absurd (h refl)

read_words-ne-stuck :
    (fuel : ℕ) (s : Str) (words : List Str) → length s < fuel → read_words fuel s words ≢ stuck
unfolding read_words
read_words-ne-stuck zero s words h e = absurd (omega arith)
read_words-ne-stuck (suc fuel) s words h e = elim (Result-cases (read_word s)) [
  | inl ((word, s'), read) ↦
      ground
        (arith, read_word_takes s s' word read, read_words-ne-stuck fuel s' (words ++ word ∷ []))
  | inr (inl (x, failed)) ↦ ground arith
  | inr (inr looped) ↦ read_word-ne-stuck s looped
]

-- readSentence ends on every input: the loop runs at most once for each byte that is left, and once
-- more.
pub read_sentence-ne-stuck : (s : Str) → read_sentence s ≢ stuck
unfolding read_sentence
read_sentence-ne-stuck s = read_words-ne-stuck (suc (length s)) s [] (omega arith)

read_words_takes :
    (fuel : ℕ) (s rest : Str) (before words : List Str)
    → read_words fuel s before ≡ ok (words, rest)
    → length rest < length s
unfolding read_words
read_words_takes zero s rest before words e = cc
read_words_takes (suc fuel) s rest before words e = elim (Result-cases (read_word s)) [
  | inl ((word, s'), read) ↦ ground (
    arith,
    read_word_takes s s' word read,
    read_words_takes fuel s' rest (before ++ word ∷ []) words,
  )
  | inr (inl (x, failed)) ↦ ground arith
  | inr (inr looped) ↦ ground arith
]

-- A sentence that was read took at least a byte.
pub read_sentence_takes :
    (s rest : Str) (words : List Str) → read_sentence s ≡ ok (words, rest) → length rest < length s
unfolding read_sentence
read_sentence_takes s rest words e = read_words_takes (suc (length s)) s rest [] words e
