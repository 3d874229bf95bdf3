-- ===== src/RouterOs/Client.antt =====
-- internal/routeros/client.go: a connection that sends commands and reads replies.
use whatunga.Prelude.{ℕ, zero, suc, Bool, true, false, Option, none, some, List, [], ◌∷◌, ◌++◌}
use whatunga.Prelude.{Str, codes, str_eq, has_prefix, ◌==◌, if◌then◌else◌, length, is_nil}
use whatunga.Prelude.Maps.{Map, lookup, insert}
use whatunga.RouterOs.{Result, ok, err, stuck, ◌>>=◌, Error, closed, not_reached, login_failed}
use whatunga.RouterOs.Protocol.{length_bytes, read_sentence}

-- The net.Conn and the buffered reader over it: what has been written, and what is to be read. A
-- write fails when the connection is not open.
pub record Client : Type 0 where
  pub is_open : Bool
  pub sent : Str
  pub incoming : Str

-- One call of Write.
unfoldable pub write : Client → Str → Result Client
write c bytes = if c.is_open then ok (record c { sent = c.sent ++ bytes }) else err closed

unfoldable pub write_length : Client → ℕ → Result Client
unfolding write
write_length c n = write c (length_bytes n)

unfoldable pub write_word : Client → Str → Result Client
unfolding write_length write
write_word c word = do c' ← write_length c (length word); write c' word

unfoldable pub write_sentence : Client → List Str → Result Client
unfolding write_word write_length
write_sentence c [] = write_length c 0
write_sentence c (word ∷ words) = do c' ← write_word c word; write_sentence c' words

-- `""`, `"done"`, `"trap"` and `"fatal"`.
pub data ReplyStatus : Type 0 where
  pending done trap fatal : ReplyStatus

pub record Reply : Type 0 where
  pub rows : List (Map Str)
  pub status : ReplyStatus

-- The index of the first `=`, given the text as what stands before it and after it.
unfoldable pub cut_at_eq : Str → Option (Str × Str)
cut_at_eq [] = none
cut_at_eq (c ∷ s) =
    let rest = cut_at_eq s in
    if c == b'=' then some ([], s) else elim rest [ none ↦ none | some (k, v) ↦ some (c ∷ k, v) ]

store_attribute : Option (Str × Str) → Map Str → Map Str
store_attribute none attrs = attrs
store_attribute (some (k, v)) attrs = insert k v attrs

-- The body of the loop: the text behind a leading `=`, cut at the next one.
add_attribute : Str → Map Str → Map Str
unfolding store_attribute cut_at_eq
add_attribute [] attrs = attrs
add_attribute (c ∷ rest) attrs =
    if has_prefix (c ∷ rest) (codes "=") then store_attribute (cut_at_eq rest) attrs else attrs

unfoldable pub attributes_from : Map Str → List Str → Map Str
unfolding add_attribute
attributes_from attrs [] = attrs
attributes_from attrs (word ∷ words) = attributes_from (add_attribute word attrs) words

unfoldable pub parse_attribute_words : List Str → Map Str
unfolding attributes_from
parse_attribute_words words = attributes_from [] words

-- strings.Join(words, " ")
join_words : List Str → Str
join_words [] = []
join_words (word ∷ []) = word
join_words (word ∷ w ∷ words) = word ++ codes " " ++ join_words (w ∷ words)

abbrev pub with_row : Reply → List Str → Reply
with_row reply words = record reply { rows = reply.rows ++ parse_attribute_words words ∷ [] }

-- The switch on a sentence that has a first word; `more` goes on with the loop. The reply that Go
-- returns beside an error is not kept: no caller reads it.
unfoldable pub dispatch :
    Str → List Str → Reply → Str → (Reply → Result (Reply × Str)) → Result (Reply × Str)
unfolding join_words
dispatch first words reply rest more =
    if str_eq first (codes "!re")
    then more (with_row reply words)
    else if str_eq first (codes "!done")
    then ok (record (if is_nil words then reply else with_row reply words) { status = done }, rest)
    else if str_eq first (codes "!trap")
    then ok (record (with_row reply words) { status = trap }, rest)
    else if str_eq first (codes "!fatal")
    then err (Error.fatal (join_words words))
    else more reply

unfoldable pub on_sentence :
    List Str → Reply → Str → (Reply → Result (Reply × Str)) → Result (Reply × Str)
unfolding dispatch
on_sentence [] reply rest more = more reply
on_sentence (first ∷ words) reply rest more = dispatch first words reply rest more

unfoldable pub read_replies : ℕ → Str → Reply → Result (Reply × Str)
read_replies zero s reply = stuck
read_replies (suc fuel) s reply = do
  (words, rest) ← read_sentence s
  on_sentence words reply rest (λ r. read_replies fuel rest r)

abbrev pub no_reply : Reply
no_reply = record { rows = []; status = pending }

-- Each sentence takes a byte at least.
unfoldable pub read_reply : Client → Result (Reply × Client)
unfolding read_replies
read_reply c = do
  (reply, rest) ← read_replies (suc (length c.incoming)) c.incoming no_reply
  ok (reply, record c { incoming = rest })

or_else : Option Str → Str → Str
or_else none s = s
or_else (some message) s = message

-- The first row with a message.
unfoldable pub error_message : List (Map Str) → Str
unfolding or_else
error_message [] = codes "unknown error"
error_message (row ∷ rows) = or_else (lookup (codes "message") row) (error_message rows)

unfoldable pub run : Client → Str → List Str → Result (Reply × Client)
run c command args = do c' ← write_sentence c (command ∷ args); read_reply c'

abbrev pub is_done : ReplyStatus → Bool
is_done done = true
is_done _ = false

unfoldable pub login : Client → Str → Str → Result Client
login c username password = do
  c' ←
      write_sentence c
        (codes "/login" ∷ (codes "=name=" ++ username) ∷ (codes "=password=" ++ password) ∷ [])
  (reply, c'') ← read_reply c'
  if is_done reply.status then ok c'' else err (login_failed (error_message reply.rows))

unfoldable pub close : Client → Client
close c = record c { is_open = false }

-- The connection that net.DialTimeout gives is the bytes that it will deliver, or none.
unfoldable pub dial : Option Str → Str → Str → Result Client
dial none username password = err not_reached
dial (some stream) username password =
    login (record { is_open = true; sent = []; incoming = stream }) username password
