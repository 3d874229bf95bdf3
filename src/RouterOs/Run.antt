-- ===== src/RouterOs/Run.antt =====
-- Commands: what a run sends, what it returns, and what it leaves to be read.
use whatunga.Prelude.{◌≡◌, refl, ap, ◌∙◌, arith}
use whatunga.Prelude.{true, false, List, [], ◌∷◌, ◌++◌, map}
use whatunga.Prelude.{Str, All}
use whatunga.RouterOs.{ok, err, ◌>>=◌, closed}
use whatunga.RouterOs.Protocol.{sentence_bytes}
use whatunga.RouterOs.Sentence.{IsWord}
use whatunga.RouterOs.Client.{Client, write_sentence, done, trap, parse_attribute_words, run}
use whatunga.RouterOs.Reply.{
  write_sentence_open, re_bytes, done_bytes, trap_bytes, read_reply_done, read_reply_trap,
}

-- A command on an open connection, answered by a "!re" sentence for each row and a bare "!done",
-- is sent as one sentence; the reply has a row of attributes for each "!re" sentence, in order,
-- and what follows the answer is left for the next command. The words of the rows are not empty
-- and shorter than 2 ^ 32 bytes.
pub run-done :
    (c : Client) (command : Str) (args : List Str) (rows : List (List Str)) (rest : Str)
    → c.is_open ≡ true
    → All (All IsWord) rows
    → c.incoming ≡ re_bytes rows ++ (done_bytes ++ rest)
    → run c command args
      ≡ ok (
        record { rows = map parse_attribute_words rows; status = done },
        record {
          is_open = true;
          sent = c.sent ++ sentence_bytes (command ∷ args);
          incoming = rest;
        },
      )
unfolding run
run-done c command args rows rest is_open h e =
    let sent = c.sent ++ sentence_bytes (command ∷ args) in
    rw (write_sentence_open (command ∷ args) c is_open) (
      read_reply_done (record c { sent = sent }) rows rest h e
      ∙ ap
          (λ b. ok (
            record { rows = map parse_attribute_words rows; status = done },
            record { is_open = b; sent = sent; incoming = rest },
          ))
          is_open)

-- A command on an open connection, answered by a trap.
pub run-trap :
    (c : Client) (command : Str) (args words : List Str) (rest : Str)
    → c.is_open ≡ true
    → All IsWord words
    → c.incoming ≡ trap_bytes words ++ rest
    → run c command args
      ≡ ok (
        record { rows = parse_attribute_words words ∷ []; status = trap },
        record {
          is_open = c.is_open;
          sent = c.sent ++ sentence_bytes (command ∷ args);
          incoming = rest;
        },
      )
unfolding run re_bytes
run-trap c command args words rest is_open h e =
    let sent = c.sent ++ sentence_bytes (command ∷ args) in
    rw (write_sentence_open (command ∷ args) c is_open)
      (read_reply_trap (record c { sent = sent }) [] words rest tt h e)

-- On an open connection a trap, of words that are not empty and shorter than 2 ^ 32 bytes, ends
-- the reply, so a "!done" that the device sends after it stays unread: the next command returns an
-- empty done reply at once, whatever the device answers to it, and that answer is left.
pub run_after_trap :
    (c : Client) (first second : Str) (words : List Str) (answer : Str)
    → c.is_open ≡ true
    → All IsWord words
    → c.incoming ≡ trap_bytes words ++ (done_bytes ++ answer)
    → (run c first [] >>= (λ (reply, c'). run c' second []))
      ≡ ok (
        record { rows = []; status = done },
        record {
          is_open = true;
          sent = (c.sent ++ sentence_bytes (first ∷ [])) ++ sentence_bytes (second ∷ []);
          incoming = answer;
        },
      )
run_after_trap c first second words answer is_open h e =
    let sent = c.sent ++ sentence_bytes (first ∷ []) in
    rw (run-trap c first [] words (done_bytes ++ answer) is_open h e) (
      run-done (record c { sent = sent; incoming = done_bytes ++ answer }) second [] [] answer
        is_open tt (unfold re_bytes in refl))

-- On a connection that is not open a command fails, and neither sends nor reads.
pub run-closed :
    (c : Client) (command : Str) (args : List Str)
    → c.is_open ≡ false
    → run c command args ≡ err closed
unfolding run write_sentence
run-closed c command args h = ground arith
