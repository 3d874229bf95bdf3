-- ===== src/Notify/Senders/Mail.antt =====
-- The text of an alert by mail.
use whatunga.Prelude.{◌≡◌, refl, ap, ◌∙◌, [], ◌∷◌, ◌++◌, Str, codes, has_prefix}
use whatunga.Prelude.Utf8.{utf8}
use whatunga.Prelude.Split.{Without, Without-append, free_of→Without}
use whatunga.Notify.{Status, up, down, unknown, Event}
use whatunga.Notify.Senders.{
  Outside, remove_from, remove_all, message_for, format_message, email_body,
}

-- A text without `<` in front of another is kept.
remove_from-Without :
    (pattern s t : Str)
    → Without b'<' s
    → remove_from (b'<' ∷ pattern) 0 (s ++ t) ≡ s ++ remove_from (b'<' ∷ pattern) 0 t
unfolding remove_from has_prefix
remove_from-Without pattern [] t h = refl
remove_from-Without pattern (c ∷ s) t h = rw (h.0, remove_from-Without pattern s t h.1) refl

remove_from_last : (pattern s : Str) → Without b'<' s → remove_from (b'<' ∷ pattern) 0 s ≡ s
unfolding remove_from has_prefix
remove_from_last pattern [] h = refl
remove_from_last pattern (c ∷ s) h = rw (h.0, remove_from_last pattern s h.1) refl

closing_ahead :
    (s : Str) → remove_from (codes "</b>") 0 (codes "</b>" ++ s) ≡ remove_from (codes "</b>") 0 s
unfolding remove_from has_prefix
closing_ahead s = refl

second_tag :
    (rest : Str) → Without b'<' rest → remove_from (codes "</b>") 0 (codes "</b>" ++ rest) ≡ rest
second_tag rest h = closing_ahead rest ∙ remove_from_last (codes "/b>") rest h

tag_ahead :
    (s : Str) → remove_from (codes "<b>") 0 (codes "<b>" ++ s) ≡ remove_from (codes "<b>") 0 s
unfolding remove_from has_prefix
tag_ahead s = refl

-- The first pass leaves the closing tag.
tag_kept :
    (rest : Str)
    → remove_from (codes "<b>") 0 (codes "</b>" ++ rest)
      ≡ codes "</b>" ++ remove_from (codes "<b>") 0 rest
unfolding remove_from has_prefix
tag_kept rest = refl

first_tag :
    (name rest : Str)
    → Without b'<' name
    → Without b'<' rest
    → remove_from (codes "<b>") 0 (codes "<b>" ++ (name ++ (codes "</b>" ++ rest)))
      ≡ name ++ (codes "</b>" ++ rest)
first_tag name rest hn hr =
    tag_ahead (name ++ (codes "</b>" ++ rest))
    ∙ remove_from-Without (codes "b>") name (codes "</b>" ++ rest) hn
    ∙ ap (◌++◌ name)
        (tag_kept rest ∙ ap (◌++◌ (codes "</b>")) (remove_from_last (codes "b>") rest hr))

-- Both tags around a text without `<`.
untagged :
    (front name rest : Str)
    → Without b'<' front
    → Without b'<' name
    → Without b'<' rest
    → remove_all
        (codes "</b>")
        (remove_all (codes "<b>") (front ++ (codes "<b>" ++ (name ++ (codes "</b>" ++ rest)))))
      ≡ front ++ (name ++ rest)
unfolding remove_all
untagged front name rest hf hn hr =
    let open_tag : remove_from (codes "<b>") 0
          (front ++ (codes "<b>" ++ (name ++ (codes "</b>" ++ rest))))
        ≡ front ++ (name ++ (codes "</b>" ++ rest)) =
      remove_from-Without (codes "b>") front (codes "<b>" ++ (name ++ (codes "</b>" ++ rest))) hf
      ∙ ap (◌++◌ front) (first_tag name rest hn hr) in
    ap (remove_from (codes "</b>") 0) open_tag
    ∙ remove_from-Without (codes "/b>") front (name ++ (codes "</b>" ++ rest)) hf
    ∙ ap (◌++◌ front) (
        remove_from-Without (codes "/b>") name (codes "</b>" ++ rest) hn
        ∙ ap (◌++◌ name) (second_tag rest hr))

-- An event whose texts have no `<`.
pub record IsUntagged (outside : Outside) (e : Event) : Type 0 where
  pub device_plain : Without b'<' e.device
  pub kind_plain : Without b'<' e.kind
  pub message_plain : Without b'<' e.message
  pub time_plain : Without b'<' (outside.format_time e.time)

down_rest : Outside → Event → Str
down_rest outside e =
    codes " ("
    ++ (e.kind
        ++ (codes ") is DOWN\n"
            ++ (e.message ++ (codes "\nSince: " ++ outside.format_time e.time))))

up_rest : Outside → Event → Str
up_rest outside e =
    codes " (" ++ (e.kind ++ (codes ") has RECOVERED\nAt: " ++ outside.format_time e.time))

pub plain_text : Outside → Event → Status → Str
plain_text outside e down = utf8 "🔴 " ++ (e.device ++ down_rest outside e)
plain_text outside e up = utf8 "🟢 " ++ (e.device ++ up_rest outside e)
plain_text outside e unknown = e.device ++ (codes " (" ++ (e.kind ++ codes "): status changed to "))

module _ (outside : Outside) (e : Event) (h : IsUntagged outside e) where
  down_rest-Without : Without b'<' (down_rest outside e)
  unfolding down_rest
  down_rest-Without = (
    refl,
    (
      refl,
      Without-append b'<' e.kind _ h.kind_plain (
          Without-append b'<' (codes ") is DOWN\n") _
            (free_of→Without b'<' (codes ") is DOWN\n") refl)
            (Without-append b'<' e.message _ h.message_plain (
              Without-append b'<' (codes "\nSince: ") _
                (free_of→Without b'<' (codes "\nSince: ") refl) h.time_plain))),
    ),
  )

  up_rest-Without : Without b'<' (up_rest outside e)
  unfolding up_rest
  up_rest-Without = (
    refl,
    (
      refl,
      Without-append b'<' e.kind _ h.kind_plain (
          Without-append b'<' (codes ") has RECOVERED\nAt: ") _
            (free_of→Without b'<' (codes ") has RECOVERED\nAt: ") refl) h.time_plain),
    ),
  )

  unknown_text : Without b'<' (plain_text outside e unknown)
  unfolding plain_text
  unknown_text = Without-append b'<' e.device _ h.device_plain (
    refl,
    (
      refl,
      Without-append b'<' e.kind _ h.kind_plain
          (free_of→Without b'<' (codes "): status changed to ") refl),
    ),
  )

  untagged_message :
      (s : Status)
      → remove_all (codes "</b>") (remove_all (codes "<b>") (message_for outside e s))
        ≡ plain_text outside e s
  untagged_message down =
      unfold message_for plain_text down_rest in
      untagged (utf8 "🔴 ") e.device (down_rest outside e) (free_of→Without b'<' (utf8 "🔴 ") refl)
        h.device_plain down_rest-Without
  untagged_message up =
      unfold message_for plain_text up_rest in
      untagged (utf8 "🟢 ") e.device (up_rest outside e) (free_of→Without b'<' (utf8 "🟢 ") refl)
        h.device_plain up_rest-Without
  untagged_message unknown =
      unfold message_for remove_all plain_text in
      ap (remove_from (codes "</b>") 0)
        (remove_from_last (codes "b>") (plain_text outside e unknown) unknown_text)
      ∙ remove_from_last (codes "/b>") (plain_text outside e unknown) unknown_text

  -- The body of the mail about an event is the message of the event without its two tags, all other
  -- bytes kept, if no text of the event and no formatted time or duration in it holds a `<`.
  pub email_body_lem : email_body outside e ≡ plain_text outside e e.status
  unfolding email_body format_message
  email_body_lem = untagged_message e.status
