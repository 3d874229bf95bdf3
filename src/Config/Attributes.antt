-- ===== src/Config/Attributes.antt =====
-- The switch of Load (internal/config/config.go) on the attributes of devices and notifiers.
use whatunga.Prelude.{ℕ, ◌≡◌, refl, Bool, some, List, ◌++◌, Str, codes, All, str_eq, has_prefix}
use whatunga.Prelude.Int.{ℤ, IsInt64}
use whatunga.Prelude.Atoi.{atoi-format_int, format_int}
use whatunga.Prelude.Split.{join}
use whatunga.Config.{Device, Notifier, Config, ok, apply_notifier_field}
use whatunga.Config.Load.{switch, setting}
use whatunga.Config.Print.{field_line, AllPlain, IsAddress, print_bool}
use whatunga.Config.Values.{
  value_after_colon-field_line, print_bool_true, AllPlain-print_bool, AllPlain-format_int,
  AllPlain-join, addresses-split-join,
}
use whatunga.Config.Fields.{in_device, in_notifier}

module _ (fraction : ℕ → ℕ → ℕ → ℕ) (c : Config) (d : Device) where
  module _ (v : Str) (plain : AllPlain v) where
    pub device_type :
        switch fraction (in_device c (some d)) (field_line (codes "type") v)
        ≡ ok (in_device c (some (record d { type = v })))
    unfolding switch has_prefix str_eq
    device_type = rw (value_after_colon-field_line (codes "type") v refl plain) refl

    pub device_address :
        switch fraction (in_device c (some d)) (field_line (codes "address") v)
        ≡ ok (in_device c (some (record d { address = v })))
    unfolding switch has_prefix str_eq
    device_address = rw (value_after_colon-field_line (codes "address") v refl plain) refl

    pub device_username :
        switch fraction (in_device c (some d)) (field_line (codes "username") v)
        ≡ ok (in_device c (some (record d { username = v })))
    unfolding switch has_prefix str_eq
    device_username = rw (value_after_colon-field_line (codes "username") v refl plain) refl

    pub device_password :
        switch fraction (in_device c (some d)) (field_line (codes "password") v)
        ≡ ok (in_device c (some (record d { password = v })))
    unfolding switch has_prefix str_eq
    device_password = rw (value_after_colon-field_line (codes "password") v refl plain) refl

    pub device_community :
        switch fraction (in_device c (some d)) (field_line (codes "community") v)
        ≡ ok (in_device c (some (record d { community = v })))
    unfolding switch has_prefix str_eq
    device_community = rw (value_after_colon-field_line (codes "community") v refl plain) refl

  pub device_use_https :
      (b : Bool)
      → switch fraction (in_device c (some d)) (field_line (codes "use_https") (print_bool b))
        ≡ ok (in_device c (some (record d { use_https = b })))
  unfolding switch has_prefix str_eq
  device_use_https b =
      rw
        (
          value_after_colon-field_line (codes "use_https") (print_bool b) refl
              (AllPlain-print_bool b),
          print_bool_true b,
        )
        refl

  pub device_insecure :
      (b : Bool)
      → switch fraction (in_device c (some d)) (field_line (codes "insecure") (print_bool b))
        ≡ ok (in_device c (some (record d { insecure = b })))
  unfolding switch has_prefix str_eq
  device_insecure b =
      rw
        (
          value_after_colon-field_line (codes "insecure") (print_bool b) refl
              (AllPlain-print_bool b),
          print_bool_true b,
        )
        refl

module _ (fraction : ℕ → ℕ → ℕ → ℕ) (c : Config) (n : Notifier) where
  module _ (v : Str) (plain : AllPlain v) where
    pub notifier_bot_token :
        switch fraction (in_notifier c (some n)) (field_line (codes "bot_token") v)
        ≡ ok (in_notifier c (some (record n { bot_token = v })))
    unfolding switch setting apply_notifier_field has_prefix str_eq
    notifier_bot_token = rw (value_after_colon-field_line (codes "bot_token") v refl plain) refl

    pub notifier_chat_id :
        switch fraction (in_notifier c (some n)) (field_line (codes "chat_id") v)
        ≡ ok (in_notifier c (some (record n { chat_id = v })))
    unfolding switch setting apply_notifier_field has_prefix str_eq
    notifier_chat_id = rw (value_after_colon-field_line (codes "chat_id") v refl plain) refl

    pub notifier_smtp_server :
        switch fraction (in_notifier c (some n)) (field_line (codes "smtp_server") v)
        ≡ ok (in_notifier c (some (record n { smtp_server = v })))
    unfolding switch setting apply_notifier_field has_prefix str_eq
    notifier_smtp_server = rw (value_after_colon-field_line (codes "smtp_server") v refl plain) refl

    pub notifier_username :
        switch fraction (in_notifier c (some n)) (field_line (codes "username") v)
        ≡ ok (in_notifier c (some (record n { username = v })))
    unfolding switch setting apply_notifier_field has_prefix str_eq
    notifier_username = rw (value_after_colon-field_line (codes "username") v refl plain) refl

    pub notifier_password :
        switch fraction (in_notifier c (some n)) (field_line (codes "password") v)
        ≡ ok (in_notifier c (some (record n { password = v })))
    unfolding switch setting apply_notifier_field has_prefix str_eq
    notifier_password = rw (value_after_colon-field_line (codes "password") v refl plain) refl

    pub notifier_from :
        switch fraction (in_notifier c (some n)) (field_line (codes "from") v)
        ≡ ok (in_notifier c (some (record n { from = v })))
    unfolding switch setting apply_notifier_field has_prefix str_eq
    notifier_from = rw (value_after_colon-field_line (codes "from") v refl plain) refl

    pub notifier_url :
        switch fraction (in_notifier c (some n)) (field_line (codes "url") v)
        ≡ ok (in_notifier c (some (record n { url = v })))
    unfolding switch setting apply_notifier_field has_prefix str_eq
    notifier_url = rw (value_after_colon-field_line (codes "url") v refl plain) refl

  pub notifier_smtp_port :
      (port : ℤ)
      → IsInt64 port
      → switch fraction (in_notifier c (some n)) (field_line (codes "smtp_port") (format_int port))
        ≡ ok (in_notifier c (some (record n { smtp_port = port })))
  unfolding switch setting apply_notifier_field has_prefix str_eq
  notifier_smtp_port port int =
      rw
        (
          value_after_colon-field_line (codes "smtp_port") (format_int port) refl
              (AllPlain-format_int port),
          atoi-format_int port int,
        )
        refl

  pub notifier_to :
      (to : List Str)
      → All IsAddress to
      → switch fraction (in_notifier c (some n)) (field_line (codes "to") (join b',' to))
        ≡ ok (in_notifier c (some (record n { to = n.to ++ to })))
  unfolding switch setting apply_notifier_field has_prefix str_eq
  notifier_to to h =
      rw
        (
          value_after_colon-field_line (codes "to") (join b',' to) refl (AllPlain-join to h),
          addresses-split-join to h,
        )
        refl
