-- ===== src/RouterOs/Login.antt =====
-- Signing in.
use whatunga.Prelude.{◌≡◌, refl, ap, ◌∙◌}
use whatunga.Prelude.{true, List, [], ◌∷◌, ◌++◌}
use whatunga.Prelude.{Str, codes, str_eq_refl, if◌then◌else◌}
use whatunga.RouterOs.{ok, err, login_failed, bind-eq-ok}
use whatunga.RouterOs.Protocol.{sentence_bytes}
use whatunga.RouterOs.Sentence.{IsWord}
use whatunga.RouterOs.Client.{
  Client, write_sentence, Reply, parse_attribute_words, read_reply, error_message, run, login,
  is_done,
}
use whatunga.RouterOs.Reply.{re_bytes, done_bytes, trap_bytes}
use whatunga.RouterOs.Run.{run-done, run-trap}
use whatunga.RouterOs.Attributes.{attribute_word, lookup-parse_attribute_words}

abbrev pub login_words : Str → Str → List Str
login_words username password =
    codes "/login" ∷ (codes "=name=" ++ username) ∷ (codes "=password=" ++ password) ∷ []

-- What is made of the reply to a login sentence.
login-run :
    (c : Client) (username password : Str) {reply : Reply} {c' : Client}
    → run c (codes "/login") ((codes "=name=" ++ username) ∷ (codes "=password=" ++ password) ∷ [])
      ≡ ok (reply, c')
    → login c username password
      ≡ (if is_done reply.status then ok c' else err (login_failed (error_message reply.rows)))
unfolding login run
login-run c username password e =
    let words = login_words username password in
    let (c1, sent, read) = bind-eq-ok (write_sentence c words) read_reply e in rw (sent, read)

-- Signing in on an open connection sends one sentence with the name and the password, and succeeds
-- where the device answers with a bare "!done"; what follows that is kept.
pub login-done :
    (c : Client) (username password rest : Str)
    → c.is_open ≡ true
    → c.incoming ≡ done_bytes ++ rest
    → login c username password
      ≡ ok (record {
        is_open = true;
        sent = c.sent ++ sentence_bytes (login_words username password);
        incoming = rest;
      })
login-done c username password rest is_open e = login-run c username password (
    run-done c (codes "/login")
      ((codes "=name=" ++ username) ∷ (codes "=password=" ++ password) ∷ []) [] rest is_open tt
      (unfold re_bytes in e))

trap_message :
    (message : Str)
    → error_message (parse_attribute_words (attribute_word (codes "message", message) ∷ []) ∷ [])
      ≡ message
unfolding error_message
trap_message message = rw (
  lookup-parse_attribute_words (codes "message") ((codes "message", message) ∷ [])
      ((refl, (refl, (refl, (refl, (refl, (refl, (refl, tt))))))), tt),
  str_eq_refl (codes "message"),
)

-- Signing in on an open connection fails with the device's own message where the device answers
-- with a trap that carries one.
pub login-trap :
    (c : Client) (username password message rest : Str)
    → c.is_open ≡ true
    → IsWord (attribute_word (codes "message", message))
    → c.incoming ≡ trap_bytes (attribute_word (codes "message", message) ∷ []) ++ rest
    → login c username password ≡ err (login_failed message)
login-trap c username password message rest is_open short e =
    login-run c username password (
      run-trap c (codes "/login")
        ((codes "=name=" ++ username) ∷ (codes "=password=" ++ password) ∷ [])
        (attribute_word (codes "message", message) ∷ []) rest is_open (short, tt) e)
    ∙ ap (λ m. err (login_failed m)) (trap_message message)
