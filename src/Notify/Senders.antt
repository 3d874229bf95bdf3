-- ===== src/Notify/Senders.antt =====
-- internal/notify/telegram.go, email.go and webhook.go: the texts of an alert, and what is sent
-- where. HTTP, SMTP and JSON are arguments, as is the format of a time.
pub mod Mail
use whatunga.Prelude.{
  ℕ, zero, suc, ◌+◌, ◌-◌, Bool, true, false, not, Option, none, some, List, [], ◌∷◌, ◌++◌, Str,
  codes, str_eq, has_prefix, length, ltb, leb, ◌==◌, if◌then◌else◌, is_nil, ◌⊎◌, inl, inr,
}
use whatunga.Prelude.Int.{ℤ}
use whatunga.Prelude.Utf8.{utf8}
use whatunga.Prelude.Decimal.{format_uint}
use whatunga.Prelude.Atoi.{format_int}
use whatunga.Monitor.{Time}
use whatunga.Notify.{Status, unknown, up, down, Event}

pub record TelegramNotifier : Type 0 where
  pub bot_token : Str
  pub chat_id : Str

pub record EmailNotifier : Type 0 where
  pub smtp_server : Str
  pub smtp_port : ℤ
  pub username : Str
  pub password : Str
  pub from : Str
  pub to : List Str

pub record WebhookNotifier : Type 0 where
  pub url : Str

pub record WebhookPayload : Type 0 where
  pub device : Str
  pub kind : Str
  pub status : Str
  pub message : Str
  pub time : Str

-- smtp.PlainAuth
pub record PlainAuth : Type 0 where
  pub identity : Str
  pub username : Str
  pub password : Str
  pub host : Str

-- What a service answers: the text of an error, or the status of the response.
pub record Outside : Type 0 where
  pub post_form : Str → List (Str × Str) → Str ⊎ ℕ
  pub post : Str → Str → Str → Str ⊎ ℕ
  -- the server, the credentials, the sender, the recipients and the message; an error or nil
  pub send_mail : Str → Option PlainAuth → Str → List Str → Str → Option Str
  pub marshal : WebhookPayload → Str ⊎ Str
  -- Format("2006-01-02 15:04:05 MST") and Format(time.RFC3339)
  pub format_time : Time → Str
  pub format_rfc3339 : Time → Str

abbrev pub telegram_api_base : Str
telegram_api_base = codes "https://api.telegram.org"

unfoldable pub status_text : Status → Str
status_text unknown = []
status_text up = codes "up"
status_text down = codes "down"

-- strings.ReplaceAll with the empty text: the number of bytes that are still to be skipped. The
-- pattern is not empty.
unfoldable pub remove_from : Str → ℕ → Str → Str
remove_from pattern skip [] = []
remove_from pattern (suc skip) (c ∷ s) = remove_from pattern skip s
remove_from pattern zero (c ∷ s) =
    let found = remove_from pattern (length pattern - 1) s in
    let rest = remove_from pattern zero s in if has_prefix (c ∷ s) pattern then found else c ∷ rest

unfoldable pub remove_all : Str → Str → Str
remove_all pattern s = remove_from pattern 0 s

-- strings.Join(parts, ", ")
unfoldable pub join_comma : List Str → Str
join_comma [] = []
join_comma (part ∷ []) = part
join_comma (part ∷ next ∷ parts) = part ++ codes ", " ++ join_comma (next ∷ parts)

unfoldable pub subject_for : Event → Str
subject_for e = subject e.status
  where
    subject : Status → Str
    subject down = codes "[Whatunga] " ++ (e.device ++ codes " is DOWN")
    subject _ = codes "[Whatunga] " ++ (e.device ++ codes " has recovered")

unfoldable pub checked : Str → Bool → ℕ → Option Str
checked name accepted status =
    if accepted
    then none
    else some (codes "notify: " ++ (name ++ (codes ": unexpected status " ++ format_uint status)))

unfoldable pub answered : Str → (ℕ → Bool) → Str ⊎ ℕ → Option Str
unfolding checked
answered name accepts (inl e) = some (codes "notify: " ++ (name ++ (codes ": " ++ e)))
answered name accepts (inr status) = checked name (accepts status) status

module _ (outside : Outside) where
  message_for : Event → Status → Str
  message_for e down =
      utf8 "🔴 <b>"
      ++ (e.device
          ++ (codes "</b> ("
              ++ (e.kind
                  ++ (codes ") is DOWN\n"
                      ++ (e.message ++ (codes "\nSince: " ++ outside.format_time e.time))))))
  message_for e up =
      utf8 "🟢 <b>"
      ++ (e.device
          ++ (codes "</b> ("
              ++ (e.kind ++ (codes ") has RECOVERED\nAt: " ++ outside.format_time e.time))))
  message_for e unknown = e.device ++ (codes " (" ++ (e.kind ++ codes "): status changed to "))

  unfoldable pub format_message : Event → Str
  unfolding message_for
  format_message e = message_for e e.status

  unfoldable pub telegram_notify : TelegramNotifier → Event → Option Str
  unfolding answered
  telegram_notify t e =
      answered (codes "telegram") (λ status. status == 200)
        (outside.post_form
          (telegram_api_base ++ (codes "/bot" ++ (t.bot_token ++ codes "/sendMessage")))
          ((codes "chat_id", t.chat_id)
            ∷ (codes "text", format_message e)
            ∷ (codes "parse_mode", codes "HTML")
            ∷ []))

  unfoldable pub email_body : Event → Str
  email_body e = remove_all (codes "</b>") (remove_all (codes "<b>") (format_message e))

  unfoldable pub email_message : EmailNotifier → Event → Str
  email_message m e =
      codes "From: "
      ++ (m.from
          ++ (codes "\r\nTo: "
              ++ (join_comma m.to
                  ++ (codes "\r\nSubject: "
                      ++ (subject_for e ++ (codes "\r\n\r\n" ++ (email_body e ++ codes "\r\n")))))))

  unfoldable pub email_auth : EmailNotifier → Option PlainAuth
  email_auth m =
      if is_nil m.username
      then none
      else some (record {
        identity = [];
        username = m.username;
        password = m.password;
        host = m.smtp_server;
      })

  unfoldable pub mail_error : Option Str → Option Str
  mail_error none = none
  mail_error (some e) = some (codes "notify: email: " ++ e)

  unfoldable pub email_notify : EmailNotifier → Event → Option Str
  unfolding mail_error
  email_notify m e = mail_error (
      outside.send_mail (m.smtp_server ++ b':' ∷ format_int m.smtp_port) (email_auth m) m.from m.to
        (email_message m e))

  unfoldable pub payload_of : Event → WebhookPayload
  payload_of e = record {
    device = e.device;
    kind = e.kind;
    status = status_text e.status;
    message = e.message;
    time = outside.format_rfc3339 e.time;
  }

  post_payload : WebhookNotifier → Str ⊎ Str → Option Str
  unfolding answered
  post_payload n (inl e) = some (codes "notify: webhook: encoding payload: " ++ e)
  post_payload n (inr body) =
      answered (codes "webhook") (λ status. ltb status 300)
        (outside.post n.url (codes "application/json") body)

  unfoldable pub webhook_notify : WebhookNotifier → Event → Option Str
  unfolding post_payload
  webhook_notify n e = post_payload n (outside.marshal (payload_of e))
