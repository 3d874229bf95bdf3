-- ===== src/Config/Examples.antt =====
-- The parser at concrete files.
use whatunga.Prelude.{
  ℕ, ◌≤◌, ◌≡◌, ◌≢◌, refl, arith, Bool, true, false, ◌&&◌, Option, some, List, [], ◌∷◌, ◌++◌, map,
  Str, All, codes, length, leb,
}
use whatunga.Prelude.Int.{pos}
use whatunga.Prelude.Split.{join, free_of→Without}
use whatunga.Config.{
  Device, Notifier, Config, ok, err, no_devices, invalid_poll_interval, apply_device_defaults,
  new_device, new_notifier,
}
use whatunga.Prelude.{str_eq, has_prefix}
use whatunga.Prelude.Atoi.{atoi}
use whatunga.Prelude.Decimal.{digits_value, parse_uint}
use whatunga.Prelude.Duration.{
  parse_duration, add_scaled, component, components, fraction_of, leading_fraction, leading_int,
  signed_duration, unit_ns, unit_of, with_sign,
}
use whatunga.Prelude.Trim.{
  trim_space, trim_space_left, trim_space_right, strip, trim_set, trim_set_left, trim_set_right,
}
use whatunga.Prelude.Split.{split, push_first}
use whatunga.Config.{
  addresses, after_colon, apply_notifier_field, flush_device, flush_notifier, value_after_colon,
  set_number,
}
use whatunga.Config.Load.{
  File, load, default_config, parse_lines, scan_lines, scan_line, step, drop_cr, switch, setting,
  drop_last_blank, finish,
}
use whatunga.Config.Print.{
  is_plain, AllPlain, is_address_byte, IsAddress, IsPlain, IsPrintable, print,
}
use whatunga.Config.RoundTrip.{load-print}
use whatunga.Config.Settled.{load-IsSettled, IsSettled}
use whatunga.Config.Comments.{commented_line, load-commented_line}

no_fraction : ℕ → ℕ → ℕ → ℕ
no_fraction f scale unit = 0

abbrev all_plain : Str → Bool
all_plain [] = true
all_plain (c ∷ v) = is_plain c && all_plain v

AllPlain-of : (v : Str) → all_plain v ≡ true → AllPlain v
AllPlain-of [] h = tt
AllPlain-of (c ∷ v) h = (ground arith, AllPlain-of v (ground arith))

IsPlain-of : (v : Str) → all_plain v && leb (length v) 60000 ≡ true → IsPlain v
IsPlain-of v h = (AllPlain-of v (ground arith), ground arith)

abbrev all_address : Str → Bool
all_address [] = true
all_address (c ∷ v) = is_address_byte c && all_address v

address_bytes : (v : Str) → all_address v ≡ true → All (λ c. is_address_byte c ≡ true) v
address_bytes [] h = tt
address_bytes (c ∷ v) h = (ground arith, address_bytes v (ground arith))

IsAddress-of : (v : Str) → all_address v && leb 1 (length v) ≡ true → IsAddress v
IsAddress-of v h = (address_bytes v (ground arith), ground arith)

abbrev firewall : Device
firewall = record (new_device (codes "edge-firewall")) {
  type = codes "snmp-firewall";
  address = codes "10.0.0.1:161";
}

abbrev mail : Notifier
mail = record (new_notifier (codes "email")) {
  smtp_server = codes "smtp.example.com";
  smtp_port = pos 587;
  to = codes "ops@example.com" ∷ codes "oncall@example.com" ∷ [];
}

abbrev small_config : Config
small_config = record {
  poll_interval = pos 1500000000;
  history_size = pos 10;
  listen_addr = codes ":8080";
  web_addr = codes ":8081";
  sqlite_path = codes "whatunga.db";
  notify_threshold = pos 2;
  devices = firewall ∷ [];
  notifiers = mail ∷ [];
}

mail_to_short : length (join b',' mail.to) ≤ 60000
unfolding join
mail_to_short = omega arith

small_config-IsPrintable : IsPrintable small_config
small_config-IsPrintable = record {
  interval_int = omega arith;
  history_int = omega arith;
  threshold_int = omega arith;
  listen_plain = IsPlain-of small_config.listen_addr refl;
  web_plain = IsPlain-of small_config.web_addr refl;
  sqlite_plain = IsPlain-of small_config.sqlite_path refl;
  devices_printable = (
    record {
      name_plain = IsPlain-of firewall.name refl;
      type_plain = IsPlain-of firewall.type refl;
      address_plain = IsPlain-of firewall.address refl;
      username_plain = IsPlain-of firewall.username refl;
      password_plain = IsPlain-of firewall.password refl;
      community_plain = IsPlain-of firewall.community refl;
    },
    tt,
  );
  notifiers_printable = (
    record {
      type_plain = IsPlain-of mail.type refl;
      bot_token_plain = IsPlain-of mail.bot_token refl;
      chat_id_plain = IsPlain-of mail.chat_id refl;
      smtp_server_plain = IsPlain-of mail.smtp_server refl;
      smtp_port_int = omega arith;
      username_plain = IsPlain-of mail.username refl;
      password_plain = IsPlain-of mail.password refl;
      from_plain = IsPlain-of mail.from refl;
      to_addresses = (
        IsAddress-of (codes "ops@example.com") refl,
        (IsAddress-of (codes "oncall@example.com") refl, tt),
      );
      to_short = mail_to_short;
      url_plain = IsPlain-of mail.url refl;
    },
    tt,
  );
}

load-print_example :
    load no_fraction (some (record { bytes = print small_config; failed = false }))
    ≡ ok (record small_config { devices = map apply_device_defaults (firewall ∷ []) })
load-print_example = load-print no_fraction small_config small_config-IsPrintable (λ e. cc)

small_config_loads :
    load no_fraction (some (record { bytes = print small_config; failed = false }))
    ≡ ok (record small_config { devices = map apply_device_defaults (firewall ∷ []) })
small_config_loads = load-print no_fraction small_config small_config-IsPrintable (λ e. cc)

load-IsSettled_example :
    ((map apply_device_defaults (firewall ∷ [])) ≢ [])
    × All IsSettled (map apply_device_defaults (firewall ∷ []))
load-IsSettled_example =
    load-IsSettled no_fraction (some (record { bytes = print small_config; failed = false }))
      (record small_config { devices = map apply_device_defaults (firewall ∷ []) })
      small_config_loads

-- The second line is that of config.example.yaml.
load-commented_line_example :
    load no_fraction (
      some (record {
        bytes = join 10 (
            (codes "listen_addr: :8080" ∷ [])
            ++ (commented_line b'1'
                  (codes "20      ")
                  (codes " snapshots retained per device (120 * 30s = 1 hour")
                  b')'
                ∷ []));
        failed = false;
      }))
    ≢ ok small_config
load-commented_line_example =
    load-commented_line no_fraction (codes "listen_addr: :8080" ∷ []) [] b'1' (codes "20      ")
      (codes " snapshots retained per device (120 * 30s = 1 hour") b')' small_config refl
      (refl, refl) (omega arith)
      (
        free_of→Without 10 (codes "listen_addr: :8080") refl,
        (
          free_of→Without 10
              (commented_line b'1' (codes "20      ")
                (codes " snapshots retained per device (120 * 30s = 1 hour") b')')
              refl,
          tt,
        ),
      )

bytes_of : List Str → Option File
bytes_of lines = some (record { bytes = join 10 lines; failed = false })

-- The first setting of config.example.yaml.
load_example_file :
    load no_fraction
      (bytes_of (codes "poll_interval: 30s     # how often to poll each device" ∷ codes "" ∷ []))
    ≡ err invalid_poll_interval
unfolding load bytes_of no_fraction parse_lines scan_lines split join scan_line step trim_space
    trim_space_right trim_space_left strip drop_cr has_prefix switch str_eq setting set_number
    parse_duration drop_last_blank finish addresses after_colon apply_device_defaults
    apply_notifier_field flush_device flush_notifier value_after_colon atoi digits_value parse_uint
    add_scaled component components fraction_of leading_fraction leading_int signed_duration unit_ns
    unit_of with_sign push_first trim_set trim_set_left trim_set_right
load_example_file = refl

load_comment_line :
    load no_fraction (
      bytes_of (
        codes "# comment"
        ∷ codes "poll_interval: 1m30s"
        ∷ codes "devices:"
        ∷ codes "  - name: 'a b'"
        ∷ codes "notifiers:"
        ∷ codes "  - type: webhook"
        ∷ codes "    smtp_port: x"
        ∷ []))
    ≡ ok (record default_config {
      poll_interval = pos 90000000000;
      devices = new_device (codes "a b") ∷ [];
      notifiers = new_notifier (codes "webhook") ∷ [];
    })
unfolding load bytes_of no_fraction parse_lines scan_lines split join scan_line step trim_space
    trim_space_right trim_space_left strip drop_cr has_prefix switch str_eq setting set_number
    parse_duration drop_last_blank finish addresses after_colon apply_device_defaults
    apply_notifier_field flush_device flush_notifier value_after_colon atoi digits_value parse_uint
    add_scaled component components fraction_of leading_fraction leading_int signed_duration unit_ns
    unit_of with_sign push_first trim_set trim_set_left trim_set_right
load_comment_line = refl

load_no_devices : load no_fraction (bytes_of (codes "history_size: -5" ∷ [])) ≡ err no_devices
unfolding load bytes_of no_fraction parse_lines scan_lines split join scan_line step trim_space
    trim_space_right trim_space_left strip drop_cr has_prefix switch str_eq setting set_number
    parse_duration drop_last_blank finish addresses after_colon apply_device_defaults
    apply_notifier_field flush_device flush_notifier value_after_colon atoi digits_value parse_uint
    add_scaled component components fraction_of leading_fraction leading_int signed_duration unit_ns
    unit_of with_sign push_first trim_set trim_set_left trim_set_right
load_no_devices = refl
