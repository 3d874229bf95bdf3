-- ===== src/RouterOs/Reply.antt =====
-- What readReply makes of a device's answer, and what it leaves.
use whatunga.Prelude.{ℕ, zero, suc, ◌≤◌, ◌<◌, ◌≡◌, ◌≢◌, refl, ap, ◌∙◌, arith, inl, inr}
use whatunga.Prelude.{true, List, [], ◌∷◌, ◌++◌, map, append-nil, append_assoc}
use whatunga.Prelude.{Str, codes, str_eq, length, length-append, All}
use whatunga.RouterOs.{Result, ok, stuck, Result-cases}
use whatunga.RouterOs.Protocol.{length_bytes, word_bytes, sentence_bytes, read_sentence}
use whatunga.RouterOs.Sentence.{
  IsWord, read_sentence-sentence_bytes, read_sentence-ne-stuck, read_sentence_takes,
  length-sentence_bytes,
}
use whatunga.RouterOs.Client.{
  Client, write_sentence, done, trap, Reply, parse_attribute_words, with_row, on_sentence,
  read_replies, no_reply, read_reply,
}

-- On an open connection a sentence goes out whole, and nothing is read.
pub write_sentence_open :
    (words : List Str) (c : Client)
    → c.is_open ≡ true
    → write_sentence c words ≡ ok (record c { sent = c.sent ++ sentence_bytes words })
unfolding write_sentence sentence_bytes word_bytes
write_sentence_open [] c h = ground arith
write_sentence_open (word ∷ words) c h =
    let before = c.sent ++ length_bytes (length word) in
    let c' = record c { sent = before ++ word } in
    let assoc = append_assoc c.sent (length_bytes (length word)) word in
    let assoc' = append_assoc c.sent (length_bytes (length word) ++ word) (sentence_bytes words) in
    ground (arith, write_sentence_open words c' h, assoc, assoc')

-- What a device sends: a "!re" sentence for each row.
unfoldable pub re_bytes : List (List Str) → Str
re_bytes [] = []
re_bytes (words ∷ rows) = sentence_bytes (codes "!re" ∷ words) ++ re_bytes rows

mark-IsWord : (c : ℕ) (s : Str) → length (c ∷ s) ≤ 6 → IsWord (c ∷ s)
mark-IsWord c s h = (omega arith, λ e. cc)

read_replies_step :
    (fuel : ℕ) (words : List Str) (rest : Str) (reply : Reply)
    → All IsWord words
    → read_replies (suc fuel) (sentence_bytes words ++ rest) reply
      ≡ on_sentence words reply rest (λ r. read_replies fuel rest r)
unfolding read_replies
read_replies_step fuel words rest reply h = rw (read_sentence-sentence_bytes words rest h)

on_re :
    (words : List Str) (reply : Reply) (rest : Str) (more : Reply → Result (Reply × Str))
    → on_sentence (codes "!re" ∷ words) reply rest more ≡ more (with_row reply words)
unfolding on_sentence str_eq
on_re words reply rest more = refl

on_done :
    (reply : Reply) (rest : Str) (more : Reply → Result (Reply × Str))
    → on_sentence (codes "!done" ∷ []) reply rest more ≡ ok (record reply { status = done }, rest)
unfolding on_sentence str_eq
on_done reply rest more = refl

on_trap :
    (words : List Str) (reply : Reply) (rest : Str) (more : Reply → Result (Reply × Str))
    → on_sentence (codes "!trap" ∷ words) reply rest more
      ≡ ok (record (with_row reply words) { status = trap }, rest)
unfolding on_sentence str_eq
on_trap words reply rest more = refl

abbrev with_rows : Reply → List (List Str) → Reply
with_rows reply rows = record reply { rows = reply.rows ++ map parse_attribute_words rows }

-- `last` is a sentence that ends a reply, and `finish` what it makes of the rows before it.
module _ (last : List Str) (rest : Str) (finish : Reply → Reply)
    (ends : (r : Reply) (more : Reply → Result (Reply × Str))
      → on_sentence last r rest more ≡ ok (finish r, rest))
    (well_formed : All IsWord last) where
  read_replies-re_bytes :
      (rows : List (List Str)) (fuel : ℕ) (reply : Reply)
      → All (All IsWord) rows
      → length rows < fuel
      → read_replies fuel (re_bytes rows ++ (sentence_bytes last ++ rest)) reply
        ≡ ok (finish (with_rows reply rows), rest)
  unfolding re_bytes
  read_replies-re_bytes rows zero reply h f = absurd (omega arith)
  read_replies-re_bytes [] (suc fuel) reply h f =
      read_replies_step fuel last rest reply well_formed
      ∙ ends reply (λ r. read_replies fuel rest r)
      ∙ rw append-nil
  read_replies-re_bytes (words ∷ rows) (suc fuel) reply h f =
      let tail = re_bytes rows ++ (sentence_bytes last ++ rest) in
      let sentence = codes "!re" ∷ words in
      ap (λ s. read_replies (suc fuel) s reply)
        (append_assoc (sentence_bytes sentence) (re_bytes rows) (sentence_bytes last ++ rest))
      ∙ read_replies_step fuel sentence tail reply
          (mark-IsWord b'!' (codes "re") (omega arith), h.0)
      ∙ on_re words reply tail (λ r. read_replies fuel tail r)
      ∙ read_replies-re_bytes rows fuel (with_row reply words) h.1 (omega arith)
      ∙ ap (λ rs. ok (finish (record reply { rows = rs }), rest))
          (append_assoc reply.rows (parse_attribute_words words ∷ [])
            (map parse_attribute_words rows))

-- Each row is a sentence of a byte at least, so the fuel of `read_reply` is enough.
length-re_bytes : (rows : List (List Str)) → length rows ≤ length (re_bytes rows)
unfolding re_bytes
length-re_bytes [] = omega arith
length-re_bytes (words ∷ rows) = omega (
  arith,
  length-append (sentence_bytes (codes "!re" ∷ words)) (re_bytes rows),
  length-sentence_bytes (codes "!re" ∷ words),
  length-re_bytes rows,
)

abbrev pub done_bytes : Str
done_bytes = sentence_bytes (codes "!done" ∷ [])

abbrev pub trap_bytes : List Str → Str
trap_bytes words = sentence_bytes (codes "!trap" ∷ words)

fuel_enough :
    (rows : List (List Str)) (more : Str) → length rows < suc (length (re_bytes rows ++ more))
fuel_enough rows more = omega (arith, length-re_bytes rows, length-append (re_bytes rows) more)

pub read_reply_done :
    (c : Client) (rows : List (List Str)) (rest : Str)
    → All (All IsWord) rows
    → c.incoming ≡ re_bytes rows ++ (done_bytes ++ rest)
    → read_reply c
      ≡ ok (
        record { rows = map parse_attribute_words rows; status = done },
        record c { incoming = rest },
      )
unfolding read_reply
read_reply_done c rows rest h e = rw e (
    rw
      (read_replies-re_bytes (codes "!done" ∷ []) rest (λ r. record r { status = done })
        (λ r more. on_done r rest more) (mark-IsWord b'!' (codes "done") (omega arith), tt) rows
        (suc (length (re_bytes rows ++ (done_bytes ++ rest)))) no_reply h
        (fuel_enough rows (done_bytes ++ rest)))
      refl)

pub read_reply_trap :
    (c : Client) (rows : List (List Str)) (words : List Str) (rest : Str)
    → All (All IsWord) rows
    → All IsWord words
    → c.incoming ≡ re_bytes rows ++ (trap_bytes words ++ rest)
    → read_reply c
      ≡ ok (
        record {
          rows = map parse_attribute_words rows ++ parse_attribute_words words ∷ [];
          status = trap;
        },
        record c { incoming = rest },
      )
unfolding read_reply
read_reply_trap c rows words rest h hw e = rw e (
    rw
      (read_replies-re_bytes (codes "!trap" ∷ words) rest
        (λ r. record (with_row r words) { status = trap }) (λ r more. on_trap words r rest more)
        (mark-IsWord b'!' (codes "trap") (omega arith), hw) rows
        (suc (length (re_bytes rows ++ (trap_bytes words ++ rest)))) no_reply h
        (fuel_enough rows (trap_bytes words ++ rest)))
      refl)

on_sentence-ne-stuck :
    (words : List Str) (reply : Reply) (rest : Str) (more : Reply → Result (Reply × Str))
    → ((r : Reply) → more r ≢ stuck)
    → on_sentence words reply rest more ≢ stuck
unfolding on_sentence
on_sentence-ne-stuck [] reply rest more h e = h reply e
on_sentence-ne-stuck (first ∷ words) reply rest more h e =
    ground (arith, h reply, h (with_row reply words))

read_replies-ne-stuck :
    (fuel : ℕ) (s : Str) (reply : Reply) → length s < fuel → read_replies fuel s reply ≢ stuck
unfolding read_replies
read_replies-ne-stuck zero s reply h e = absurd (omega arith)
read_replies-ne-stuck (suc fuel) s reply h e = elim (Result-cases (read_sentence s)) [
  | inl ((words, rest), read) ↦
      on_sentence-ne-stuck words reply rest (λ r. read_replies fuel rest r)
        (λ r.
          read_replies-ne-stuck fuel rest r (omega (arith, read_sentence_takes s rest words read)))
        (rw read at e)
  | inr (inl (x, failed)) ↦ ground arith
  | inr (inr looped) ↦ read_sentence-ne-stuck s looped
]

-- Reading a reply ends on every input, with a reply or with an error.
pub read_reply-ne-stuck : (c : Client) → read_reply c ≢ stuck
unfolding read_reply
read_reply-ne-stuck c e =
    ground
      (arith, read_replies-ne-stuck (suc (length c.incoming)) c.incoming no_reply (omega arith))
