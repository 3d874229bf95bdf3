-- ===== src/Config/RoundTrip.antt =====
-- Load (internal/config/config.go) reads back what the printer has written.
use whatunga.Prelude.{
  ℕ, ◌≡◌, ◌≢◌, refl, sym, ap, ◌∙◌, arith, false, Option, none, some, List, [], ◌∷◌, ◌++◌, map,
  append_assoc, append-nil, All, Str, codes, is_nil, length, length-append, ◌≤◌,
}
use whatunga.Prelude.Int.{ℤ, IsInt64}
use whatunga.Prelude.Atoi.{format_int}
use whatunga.Prelude.Split.{split, join, split-join}
use whatunga.Config.{
  Device, Notifier, Config, ok, apply_device_defaults, flush_device, flush_notifier,
}
use whatunga.Config.Load.{
  parse_lines, scan_lines, drop_last_blank, finish, load, new_parser, default_config,
}
use whatunga.Config.Print.{
  print, print_duration, config_lines, devices_lines, notifiers_lines, IsPrintable,
  IsPrintableDevice, IsPrintableNotifier,
}
use whatunga.Config.Lines.{
  parse_lines-field_line, parse_lines_ok, parse_lines-blank, parse_lines-drop_last_blank,
  scan_line-spaces,
}
use whatunga.Config.Fields.{
  at_top, in_device, in_notifier, with_device, with_notifier, switch-devices, switch-notifiers,
  switch-poll_interval, switch-history_size, switch-listen_addr, switch-web_addr,
  switch-sqlite_path, switch-notify_threshold,
}
use whatunga.Config.Entries.{
  parse_lines-device_lines, parse_lines-notifier_lines, length-format_int, short,
}
use whatunga.Config.Newlines.{All-Without-config_lines}

-- The configuration with the devices of a list, the last of which is still open.
devices_end : Config → Option Device → List Device → Config × Option Device
devices_end c cur [] = (c, cur)
devices_end c cur (d ∷ ds) = devices_end (with_device c cur) (some d) ds

notifiers_end : Config → Option Notifier → List Notifier → Config × Option Notifier
notifiers_end c cur [] = (c, cur)
notifiers_end c cur (n ∷ ns) = notifiers_end (with_notifier c cur) (some n) ns

with_device-devices_end :
    (c : Config) (cur : Option Device) (ds : List Device)
    → with_device (devices_end c cur ds).0 (devices_end c cur ds).1
      ≡ record c { devices = (with_device c cur).devices ++ map apply_device_defaults ds }
unfolding devices_end
with_device-devices_end c none [] =
    ap (λ (l : List Device). record c { devices = l }) (sym (append-nil c.devices))
with_device-devices_end c (some d) [] =
    ap (λ (l : List Device). record c { devices = l })
      (sym (append-nil (c.devices ++ apply_device_defaults d ∷ [])))
with_device-devices_end c none (e ∷ ds) =
    with_device-devices_end c (some e) ds
    ∙ ap (λ (l : List Device). record c { devices = l })
        (append_assoc c.devices (apply_device_defaults e ∷ []) (map apply_device_defaults ds))
with_device-devices_end c (some d) (e ∷ ds) =
    let c' = with_device c (some d) in
    with_device-devices_end c' (some e) ds
    ∙ ap (λ (l : List Device). record c { devices = l })
        (append_assoc c'.devices (apply_device_defaults e ∷ []) (map apply_device_defaults ds))

with_notifier-notifiers_end :
    (c : Config) (cur : Option Notifier) (ns : List Notifier)
    → with_notifier (notifiers_end c cur ns).0 (notifiers_end c cur ns).1
      ≡ record c { notifiers = (with_notifier c cur).notifiers ++ ns }
unfolding notifiers_end
with_notifier-notifiers_end c none [] =
    ap (λ (l : List Notifier). record c { notifiers = l }) (sym (append-nil c.notifiers))
with_notifier-notifiers_end c (some n) [] =
    ap (λ (l : List Notifier). record c { notifiers = l })
      (sym (append-nil (c.notifiers ++ n ∷ [])))
with_notifier-notifiers_end c none (m ∷ ns) =
    with_notifier-notifiers_end c (some m) ns
    ∙ ap (λ (l : List Notifier). record c { notifiers = l }) (append_assoc c.notifiers (m ∷ []) ns)
with_notifier-notifiers_end c (some n) (m ∷ ns) =
    let c' = with_notifier c (some n) in
    with_notifier-notifiers_end c' (some m) ns
    ∙ ap (λ (l : List Notifier). record c { notifiers = l }) (append_assoc c'.notifiers (m ∷ []) ns)

length-print_duration : (n : ℤ) → IsInt64 n → length (print_duration n) ≤ 60000
length-print_duration n h =
    omega (arith, length-append (format_int n) (codes "ns"), length-format_int n h)

finish-in_notifier :
    (c : Config) (n : Option Notifier)
    → is_nil (with_notifier c n).devices ≡ false
    → finish false (in_notifier c n) ≡ ok (with_notifier c n)
unfolding finish flush_device flush_notifier
finish-in_notifier c none h = rw h refl
finish-in_notifier c (some n) h = rw h refl

split-config_lines :
    (c : Config) → IsPrintable c → split 10 (join 10 (config_lines c)) ≡ config_lines c
unfolding config_lines
split-config_lines c h = split-join 10 _ _ (All-Without-config_lines c h)

map-is_nil : (ds : List Device) → ds ≢ [] → is_nil (map apply_device_defaults ds) ≡ false
map-is_nil [] ne = absurd (ne refl)
map-is_nil (d ∷ ds) ne = refl

module _ (fraction : ℕ → ℕ → ℕ → ℕ) where
  parse_lines-devices_lines :
      (c : Config) (cur : Option Device) (ds : List Device) (lines : List Str)
      → All IsPrintableDevice ds
      → parse_lines fraction (in_device c cur) (devices_lines ds lines)
        ≡ parse_lines fraction (in_device (devices_end c cur ds).0 (devices_end c cur ds).1) lines
  unfolding devices_lines devices_end
  parse_lines-devices_lines c cur [] lines h = refl
  parse_lines-devices_lines c cur (d ∷ ds) lines h =
      parse_lines-device_lines fraction c cur d (devices_lines ds lines) h.0
      ∙ parse_lines-devices_lines (with_device c cur) (some d) ds lines h.1

  parse_lines-notifiers_lines :
      (c : Config) (cur : Option Notifier) (ns : List Notifier)
      → All IsPrintableNotifier ns
      → parse_lines fraction (in_notifier c cur) (notifiers_lines ns)
        ≡ ok (in_notifier (notifiers_end c cur ns).0 (notifiers_end c cur ns).1)
  unfolding notifiers_lines notifiers_end
  parse_lines-notifiers_lines c cur [] h =
      parse_lines-blank fraction (in_notifier c cur) [] ∙ (unfold parse_lines in refl)
  parse_lines-notifiers_lines c cur (n ∷ ns) h =
      parse_lines-notifier_lines fraction c cur n (notifiers_lines ns) h.0
      ∙ parse_lines-notifiers_lines (with_notifier c cur) (some n) ns h.1

  -- Its lines bring the parser from the defaults to the configuration.
  parse_lines-config_lines :
      (c : Config)
      → IsPrintable c
      → let c1 : Config = record c { devices = []; notifiers = [] } in
        let c2 : Config =
          with_device (devices_end c1 none c.devices).0 (devices_end c1 none c.devices).1 in
        parse_lines fraction new_parser (config_lines c)
        ≡ ok (
            in_notifier (notifiers_end c2 none c.notifiers).0 (notifiers_end c2 none c.notifiers).1)
  unfolding config_lines
  parse_lines-config_lines c h =
      let a0 = default_config in
      let a1 = record a0 { poll_interval = c.poll_interval } in
      let a2 = record a1 { history_size = c.history_size } in
      let a3 = record a2 { listen_addr = c.listen_addr } in
      let a4 = record a3 { web_addr = c.web_addr } in
      let a5 = record a4 { sqlite_path = c.sqlite_path } in
      let c1 : Config = record c { devices = []; notifiers = [] } in
      let (c', d) = devices_end c1 none c.devices in
      parse_lines-field_line fraction 0 _ _ (codes "poll_interval") (print_duration c.poll_interval)
        _ (switch-poll_interval fraction a0 c.poll_interval h.interval_int) refl
        (length-print_duration c.poll_interval h.interval_int)
      ∙ parse_lines-field_line fraction 0 _ _ (codes "history_size") (format_int c.history_size) _
          (switch-history_size fraction a1 c.history_size h.history_int) refl
          (short (length-format_int c.history_size h.history_int))
      ∙ parse_lines-field_line fraction 0 _ _ (codes "listen_addr") c.listen_addr _
          (switch-listen_addr fraction a2 c.listen_addr h.listen_plain.0) refl h.listen_plain.1
      ∙ parse_lines-field_line fraction 0 _ _ (codes "web_addr") c.web_addr _
          (switch-web_addr fraction a3 c.web_addr h.web_plain.0) refl h.web_plain.1
      ∙ parse_lines-field_line fraction 0 _ _ (codes "sqlite_path") c.sqlite_path _
          (switch-sqlite_path fraction a4 c.sqlite_path h.sqlite_plain.0) refl h.sqlite_plain.1
      ∙ parse_lines-field_line fraction 0 _ _ (codes "notify_threshold")
          (format_int c.notify_threshold) _
          (switch-notify_threshold fraction a5 c.notify_threshold h.threshold_int) refl
          (short (length-format_int c.notify_threshold h.threshold_int))
      ∙ parse_lines_ok fraction (at_top c1) (in_device c1 none) (codes "devices:") _ (
          scan_line-spaces fraction 0 (at_top c1) b'd' b':' (codes "evices") refl refl refl
            (omega arith) (omega arith)
          ∙ switch-devices fraction c1)
      ∙ parse_lines-devices_lines c1 none c.devices _ h.devices_printable
      ∙ parse_lines_ok fraction (in_device c' d) (in_notifier (with_device c' d) none)
          (codes "notifiers:") _
          (scan_line-spaces fraction 0 (in_device c' d) b'n' b':' (codes "otifiers") refl refl refl
              (omega arith) (omega arith)
            ∙ switch-notifiers fraction c' d)
      ∙ parse_lines-notifiers_lines (with_device c' d) none c.notifiers h.notifiers_printable

  parse_lines-print :
      (c : Config)
      → IsPrintable c
      → parse_lines fraction new_parser (scan_lines (print c))
        ≡ parse_lines fraction new_parser (config_lines c)
  unfolding scan_lines print
  parse_lines-print c h =
      ap (λ (lines : List Str). parse_lines fraction new_parser (drop_last_blank lines))
        (split-config_lines c h)
      ∙ parse_lines-drop_last_blank fraction new_parser (config_lines c)

  -- A configuration that is printed and loaded again comes back, with the default community filled
  -- in for SNMP devices without one, if it has a device and can be printed: its numbers are those of
  -- 64 bits, and its texts and addresses of mail are plain in the sense of IsPrintable.
  pub load-print :
      (c : Config)
      → IsPrintable c
      → c.devices ≢ []
      → load fraction (some (record { bytes = print c; failed = false }))
        ≡ ok (record c { devices = map apply_device_defaults c.devices })
  unfolding load
  load-print c h ne =
      let c1 : Config = record c { devices = []; notifiers = [] } in
      let (c', d) = devices_end c1 none c.devices in
      let (c'', n) = notifiers_end (with_device c' d) none c.notifiers in
      let ended : with_notifier c'' n ≡ record c { devices = map apply_device_defaults c.devices } =
        with_notifier-notifiers_end (with_device c' d) none c.notifiers
        ∙ ap (λ (a : Config). record a { notifiers = a.notifiers ++ c.notifiers })
            (with_device-devices_end c1 none c.devices) in
      let devices : is_nil (with_notifier c'' n).devices ≡ false =
        ap (λ (a : Config). is_nil a.devices) ended ∙ map-is_nil c.devices ne in
      rw (parse_lines-print c h, parse_lines-config_lines c h)
        (finish-in_notifier c'' n devices ∙ ap ok ended)
