-- ===== src/Config/Fields.antt =====
-- The switch of Load (internal/config/config.go) on each kind of printed line.
use whatunga.Prelude.{
  ℕ, ◌≡◌, refl, Option, none, some, [], ◌∷◌, ◌++◌, Str, codes, str_eq, has_prefix,
}
use whatunga.Prelude.Int.{ℤ, IsInt64}
use whatunga.Prelude.Atoi.{atoi-format_int, format_int}
use whatunga.Prelude.Duration.RoundTrip.{parse_duration-format_int}
use whatunga.Config.{
  Device, Notifier, Config, ok, Parser, top, in_devices, in_notifiers, new_device, new_notifier,
  flush_device, flush_notifier, apply_device_defaults, set_number,
}
use whatunga.Config.Load.{switch, setting}
use whatunga.Config.Print.{field_line, AllPlain, print_duration}
use whatunga.Config.Values.{
  value_after_colon-field_line, AllPlain-format_int, AllPlain-print_duration,
}

abbrev pub at_top : Config → Parser
at_top c = record { config = c; section = top; current_device = none; current_notifier = none }

abbrev pub in_device : Config → Option Device → Parser
in_device c d = record {
  config = c;
  section = in_devices;
  current_device = d;
  current_notifier = none;
}

abbrev pub in_notifier : Config → Option Notifier → Parser
in_notifier c n = record {
  config = c;
  section = in_notifiers;
  current_device = none;
  current_notifier = n;
}

abbrev pub with_device : Config → Option Device → Config
with_device c none = c
with_device c (some d) = record c { devices = c.devices ++ apply_device_defaults d ∷ [] }

abbrev pub with_notifier : Config → Option Notifier → Config
with_notifier c none = c
with_notifier c (some n) = record c { notifiers = c.notifiers ++ n ∷ [] }

module _ (fraction : ℕ → ℕ → ℕ → ℕ) (c : Config) where
  pub switch-devices : switch fraction (at_top c) (codes "devices:") ≡ ok (in_device c none)
  unfolding switch str_eq flush_device flush_notifier
  switch-devices = refl

  pub switch-notifiers :
      (d : Option Device)
      → switch fraction (in_device c d) (codes "notifiers:")
        ≡ ok (in_notifier (with_device c d) none)
  unfolding switch str_eq flush_device flush_notifier
  switch-notifiers none = refl
  switch-notifiers (some d) = refl

  module _ (v : Str) (plain : AllPlain v) where
    pub switch-device :
        (d : Option Device)
        → switch fraction (in_device c d) (field_line (codes "- name") v)
          ≡ ok (in_device (with_device c d) (some (new_device v)))
    unfolding switch has_prefix str_eq flush_device
    switch-device none = rw (value_after_colon-field_line (codes "- name") v refl plain) refl
    switch-device (some d) = rw (value_after_colon-field_line (codes "- name") v refl plain) refl

    pub switch-notifier :
        (n : Option Notifier)
        → switch fraction (in_notifier c n) (field_line (codes "- type") v)
          ≡ ok (in_notifier (with_notifier c n) (some (new_notifier v)))
    unfolding switch has_prefix str_eq flush_notifier
    switch-notifier none = rw (value_after_colon-field_line (codes "- type") v refl plain) refl
    switch-notifier (some n) = rw (value_after_colon-field_line (codes "- type") v refl plain) refl

    pub switch-listen_addr :
        switch fraction (at_top c) (field_line (codes "listen_addr") v)
        ≡ ok (at_top (record c { listen_addr = v }))
    unfolding switch setting has_prefix str_eq
    switch-listen_addr = rw (value_after_colon-field_line (codes "listen_addr") v refl plain) refl

    pub switch-web_addr :
        switch fraction (at_top c) (field_line (codes "web_addr") v)
        ≡ ok (at_top (record c { web_addr = v }))
    unfolding switch setting has_prefix str_eq
    switch-web_addr = rw (value_after_colon-field_line (codes "web_addr") v refl plain) refl

    pub switch-sqlite_path :
        switch fraction (at_top c) (field_line (codes "sqlite_path") v)
        ≡ ok (at_top (record c { sqlite_path = v }))
    unfolding switch setting has_prefix str_eq
    switch-sqlite_path = rw (value_after_colon-field_line (codes "sqlite_path") v refl plain) refl

module _ (fraction : ℕ → ℕ → ℕ → ℕ) (c : Config) (n : ℤ) (int : IsInt64 n) where
  pub switch-poll_interval :
      switch fraction (at_top c) (field_line (codes "poll_interval") (print_duration n))
      ≡ ok (at_top (record c { poll_interval = n }))
  unfolding switch setting set_number has_prefix str_eq
  switch-poll_interval =
      rw
        (
          value_after_colon-field_line (codes "poll_interval") (print_duration n) refl
              (AllPlain-print_duration n),
          parse_duration-format_int fraction n int,
        )
        refl

  pub switch-history_size :
      switch fraction (at_top c) (field_line (codes "history_size") (format_int n))
      ≡ ok (at_top (record c { history_size = n }))
  unfolding switch setting set_number has_prefix str_eq
  switch-history_size =
      rw
        (
          value_after_colon-field_line (codes "history_size") (format_int n) refl
              (AllPlain-format_int n),
          atoi-format_int n int,
        )
        refl

  pub switch-notify_threshold :
      switch fraction (at_top c) (field_line (codes "notify_threshold") (format_int n))
      ≡ ok (at_top (record c { notify_threshold = n }))
  unfolding switch setting set_number has_prefix str_eq
  switch-notify_threshold =
      rw
        (
          value_after_colon-field_line (codes "notify_threshold") (format_int n) refl
              (AllPlain-format_int n),
          atoi-format_int n int,
        )
        refl
