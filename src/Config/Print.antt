-- ===== src/Config/Print.antt =====
-- A printer of configurations, in the format that internal/config/config.go reads: one line for
-- each field, its value in quotes.
use whatunga.Prelude.{
  ℕ, ◌≤◌, ◌≡◌, Bool, true, not, ◌&&◌, List, [], ◌∷◌, ◌++◌, Str, All, codes, ◌==◌, if◌then◌else◌,
  length,
}
use whatunga.Prelude.Int.{ℤ, IsInt64}
use whatunga.Prelude.Atoi.{format_int}
use whatunga.Prelude.Split.{join}
use whatunga.Prelude.Trim.{is_solid}
use whatunga.Config.{Device, Notifier, Config, is_quote}

abbrev pub field_line : Str → Str → Str
field_line key v = key ++ b':' ∷ b' ' ∷ b'"' ∷ (v ++ b'"' ∷ [])

abbrev pub print_bool : Bool → Str
print_bool b = if b then codes "true" else codes "false"

abbrev pub print_duration : ℤ → Str
print_duration n = format_int n ++ codes "ns"

abbrev pub item : Str
item = codes "  "

abbrev pub attribute : Str
attribute = codes "    "

abbrev pub device_lines : Device → List Str → List Str
device_lines d lines =
    (item ++ field_line (codes "- name") d.name)
    ∷ (attribute ++ field_line (codes "type") d.type)
    ∷ (attribute ++ field_line (codes "address") d.address)
    ∷ (attribute ++ field_line (codes "username") d.username)
    ∷ (attribute ++ field_line (codes "password") d.password)
    ∷ (attribute ++ field_line (codes "community") d.community)
    ∷ (attribute ++ field_line (codes "use_https") (print_bool d.use_https))
    ∷ (attribute ++ field_line (codes "insecure") (print_bool d.insecure))
    ∷ lines

abbrev pub notifier_lines : Notifier → List Str → List Str
notifier_lines n lines =
    (item ++ field_line (codes "- type") n.type)
    ∷ (attribute ++ field_line (codes "bot_token") n.bot_token)
    ∷ (attribute ++ field_line (codes "chat_id") n.chat_id)
    ∷ (attribute ++ field_line (codes "smtp_server") n.smtp_server)
    ∷ (attribute ++ field_line (codes "smtp_port") (format_int n.smtp_port))
    ∷ (attribute ++ field_line (codes "username") n.username)
    ∷ (attribute ++ field_line (codes "password") n.password)
    ∷ (attribute ++ field_line (codes "from") n.from)
    ∷ (attribute ++ field_line (codes "to") (join b',' n.to))
    ∷ (attribute ++ field_line (codes "url") n.url)
    ∷ lines

unfoldable pub devices_lines : List Device → List Str → List Str
devices_lines [] lines = lines
devices_lines (d ∷ ds) lines = device_lines d (devices_lines ds lines)

unfoldable pub notifiers_lines : List Notifier → List Str
notifiers_lines [] = [] ∷ []
notifiers_lines (n ∷ ns) = notifier_lines n (notifiers_lines ns)

-- The lines of a configuration, and the empty text behind the last newline.
unfoldable pub config_lines : Config → List Str
config_lines c =
    field_line (codes "poll_interval") (print_duration c.poll_interval)
    ∷ field_line (codes "history_size") (format_int c.history_size)
    ∷ field_line (codes "listen_addr") c.listen_addr
    ∷ field_line (codes "web_addr") c.web_addr
    ∷ field_line (codes "sqlite_path") c.sqlite_path
    ∷ field_line (codes "notify_threshold") (format_int c.notify_threshold)
    ∷ codes "devices:"
    ∷ devices_lines c.devices (codes "notifiers:" ∷ notifiers_lines c.notifiers)

unfoldable pub print : Config → Str
unfolding config_lines
print c = join 10 (config_lines c)

-- A byte that a quoted value may hold.
abbrev pub is_plain : ℕ → Bool
is_plain c = not (c == 10) && not (is_quote c)

abbrev pub AllPlain : Str → Type 0
AllPlain v = All (λ c. is_plain c ≡ true) v

-- A value that fits in a line.
abbrev pub IsPlain : Str → Type 0
IsPlain v = AllPlain v × (length v ≤ 60000)

-- A byte of a mail address.
abbrev pub is_address_byte : ℕ → Bool
is_address_byte c = is_solid c && is_plain c && not (c == b',')

abbrev pub IsAddress : Str → Type 0
IsAddress a = All (λ c. is_address_byte c ≡ true) a × (1 ≤ length a)

pub record IsPrintableDevice (d : Device) : Type 0 where
  pub name_plain : IsPlain d.name
  pub type_plain : IsPlain d.type
  pub address_plain : IsPlain d.address
  pub username_plain : IsPlain d.username
  pub password_plain : IsPlain d.password
  pub community_plain : IsPlain d.community

pub record IsPrintableNotifier (n : Notifier) : Type 0 where
  pub type_plain : IsPlain n.type
  pub bot_token_plain : IsPlain n.bot_token
  pub chat_id_plain : IsPlain n.chat_id
  pub smtp_server_plain : IsPlain n.smtp_server
  pub smtp_port_int : IsInt64 n.smtp_port
  pub username_plain : IsPlain n.username
  pub password_plain : IsPlain n.password
  pub from_plain : IsPlain n.from
  pub to_addresses : All IsAddress n.to
  pub to_short : length (join b',' n.to) ≤ 60000
  pub url_plain : IsPlain n.url

pub record IsPrintable (c : Config) : Type 0 where
  pub interval_int : IsInt64 c.poll_interval
  pub history_int : IsInt64 c.history_size
  pub threshold_int : IsInt64 c.notify_threshold
  pub listen_plain : IsPlain c.listen_addr
  pub web_plain : IsPlain c.web_addr
  pub sqlite_plain : IsPlain c.sqlite_path
  pub devices_printable : All IsPrintableDevice c.devices
  pub notifiers_printable : All IsPrintableNotifier c.notifiers
