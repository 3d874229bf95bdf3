-- ===== src/Config/Newlines.antt =====
-- No line of a printed configuration holds a newline.
use whatunga.Prelude.{
  ℕ, zero, suc, ◌≡◌, refl, arith, true, false, List, [], ◌∷◌, ◌++◌, All, All-append, Str, codes,
  ◌==◌,
}
use whatunga.Prelude.Atoi.{format_int}
use whatunga.Prelude.Split.{join, Without, free_of, free_of→Without}
use whatunga.Config.{Device, Notifier, Config}
use whatunga.Config.Print.{
  field_line, AllPlain, print_bool, print_duration, IsPrintable, IsPrintableDevice,
  IsPrintableNotifier, device_lines, notifier_lines, devices_lines, notifiers_lines, config_lines,
}
use whatunga.Config.Values.{
  AllPlain-print_bool, AllPlain-format_int, AllPlain-print_duration, AllPlain-join,
}
use whatunga.Config.Lines.{spaces}

plain_free : (v : Str) → AllPlain v → Without 10 v
plain_free [] h = tt
plain_free (c ∷ v) h = (ground arith, plain_free v h.1)

Without-field_line :
    (n : ℕ) (key v : Str)
    → free_of 10 key ≡ true
    → AllPlain v
    → Without 10 (spaces n (field_line key v))
Without-field_line (suc n) key v k h = (refl, Without-field_line n key v k h)
Without-field_line zero key v k h =
    All-append (λ c. (c == 10) ≡ false) key (b':' ∷ b' ' ∷ b'"' ∷ (v ++ b'"' ∷ []))
      (free_of→Without 10 key k)
      (
        refl,
        (
          refl,
          (refl, All-append (λ c. (c == 10) ≡ false) v (b'"' ∷ []) (plain_free v h) (refl, tt)),
        ),
      )

device_free :
    (d : Device) (lines : List Str)
    → IsPrintableDevice d
    → All (Without 10) lines
    → All (Without 10) (device_lines d lines)
device_free d lines h rest = (
  Without-field_line 2 (codes "- name") d.name refl h.name_plain.0,
  (
    Without-field_line 4 (codes "type") d.type refl h.type_plain.0,
    (
      Without-field_line 4 (codes "address") d.address refl h.address_plain.0,
      (
        Without-field_line 4 (codes "username") d.username refl h.username_plain.0,
        (
          Without-field_line 4 (codes "password") d.password refl h.password_plain.0,
          (
            Without-field_line 4 (codes "community") d.community refl h.community_plain.0,
            (
              Without-field_line 4 (codes "use_https") (print_bool d.use_https) refl
                  (AllPlain-print_bool d.use_https),
              (
                Without-field_line 4 (codes "insecure") (print_bool d.insecure) refl
                    (AllPlain-print_bool d.insecure),
                rest,
              ),
            ),
          ),
        ),
      ),
    ),
  ),
)

notifier_free :
    (n : Notifier) (lines : List Str)
    → IsPrintableNotifier n
    → All (Without 10) lines
    → All (Without 10) (notifier_lines n lines)
notifier_free n lines h rest = (
  Without-field_line 2 (codes "- type") n.type refl h.type_plain.0,
  (
    Without-field_line 4 (codes "bot_token") n.bot_token refl h.bot_token_plain.0,
    (
      Without-field_line 4 (codes "chat_id") n.chat_id refl h.chat_id_plain.0,
      (
        Without-field_line 4 (codes "smtp_server") n.smtp_server refl h.smtp_server_plain.0,
        (
          Without-field_line 4 (codes "smtp_port") (format_int n.smtp_port) refl
              (AllPlain-format_int n.smtp_port),
          (
            Without-field_line 4 (codes "username") n.username refl h.username_plain.0,
            (
              Without-field_line 4 (codes "password") n.password refl h.password_plain.0,
              (
                Without-field_line 4 (codes "from") n.from refl h.from_plain.0,
                (
                  Without-field_line 4 (codes "to") (join b',' n.to) refl
                      (AllPlain-join n.to h.to_addresses),
                  (Without-field_line 4 (codes "url") n.url refl h.url_plain.0, rest),
                ),
              ),
            ),
          ),
        ),
      ),
    ),
  ),
)

devices_free :
    (ds : List Device) (lines : List Str)
    → All IsPrintableDevice ds
    → All (Without 10) lines
    → All (Without 10) (devices_lines ds lines)
unfolding devices_lines
devices_free [] lines h rest = rest
devices_free (d ∷ ds) lines h rest =
    device_free d (devices_lines ds lines) h.0 (devices_free ds lines h.1 rest)

notifiers_free :
    (ns : List Notifier) → All IsPrintableNotifier ns → All (Without 10) (notifiers_lines ns)
unfolding notifiers_lines
notifiers_free [] h = (tt, tt)
notifiers_free (n ∷ ns) h = notifier_free n (notifiers_lines ns) h.0 (notifiers_free ns h.1)

pub All-Without-config_lines : (c : Config) → IsPrintable c → All (Without 10) (config_lines c)
unfolding config_lines
All-Without-config_lines c h = (
  Without-field_line 0 (codes "poll_interval") (print_duration c.poll_interval) refl
      (AllPlain-print_duration c.poll_interval),
  (
    Without-field_line 0 (codes "history_size") (format_int c.history_size) refl
        (AllPlain-format_int c.history_size),
    (
      Without-field_line 0 (codes "listen_addr") c.listen_addr refl h.listen_plain.0,
      (
        Without-field_line 0 (codes "web_addr") c.web_addr refl h.web_plain.0,
        (
          Without-field_line 0 (codes "sqlite_path") c.sqlite_path refl h.sqlite_plain.0,
          (
            Without-field_line 0 (codes "notify_threshold") (format_int c.notify_threshold) refl
                (AllPlain-format_int c.notify_threshold),
            (
              free_of→Without 10 (codes "devices:") refl,
              devices_free c.devices (codes "notifiers:" ∷ notifiers_lines c.notifiers)
                  h.devices_printable
                  (
                    free_of→Without 10 (codes "notifiers:") refl,
                    notifiers_free c.notifiers h.notifiers_printable,
                  ),
            ),
          ),
        ),
      ),
    ),
  ),
)
