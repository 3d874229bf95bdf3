-- ===== src/Config/Entries.antt =====
-- The lines of one printed device or notifier through the loop of Load (internal/config/config.go).
use whatunga.Prelude.{
  ℕ, suc, ◌≤◌, ◌≡◌, refl, ◌∙◌, arith, Bool, true, false, Option, some, List, Str, codes, length,
}
use whatunga.Prelude.Int.{ℤ, pos, negsuc, IsInt64}
use whatunga.Prelude.Decimal.{length-format_uint}
use whatunga.Prelude.Atoi.{format_int}
use whatunga.Prelude.Split.{join}
use whatunga.Config.{Device, Notifier, Config, new_device, new_notifier}
use whatunga.Config.Load.{parse_lines}
use whatunga.Config.Print.{
  print_bool, IsPrintableDevice, IsPrintableNotifier, device_lines, notifier_lines,
}
use whatunga.Config.Lines.{parse_lines-field_line}
use whatunga.Config.Fields.{
  in_device, in_notifier, with_device, with_notifier, switch-device, switch-notifier,
}
use whatunga.Config.Attributes.{
  device_type, device_address, device_username, device_password, device_community, device_use_https,
  device_insecure, notifier_bot_token, notifier_chat_id, notifier_smtp_server, notifier_smtp_port,
  notifier_username, notifier_password, notifier_from, notifier_to, notifier_url,
}

length-print_bool : (b : Bool) → length (print_bool b) ≤ 60000
length-print_bool true = omega arith
length-print_bool false = omega arith

pub length-format_int : (n : ℤ) → IsInt64 n → length (format_int n) ≤ 50000
unfolding format_int
length-format_int (pos n) h = omega (arith, length-format_uint n)
length-format_int (negsuc n) h = omega (arith, length-format_uint (suc n))

pub short : {n : ℕ} → n ≤ 50000 → n ≤ 60000
short h = omega arith

module _ (fraction : ℕ → ℕ → ℕ → ℕ) where
  pub parse_lines-device_lines :
      (c : Config) (cur : Option Device) (d : Device) (lines : List Str)
      → IsPrintableDevice d
      → parse_lines fraction (in_device c cur) (device_lines d lines)
        ≡ parse_lines fraction (in_device (with_device c cur) (some d)) lines
  parse_lines-device_lines c cur d lines h =
      let c' = with_device c cur in
      let d0 = new_device d.name in
      let d1 = record d0 { type = d.type } in
      let d2 = record d1 { address = d.address } in
      let d3 = record d2 { username = d.username } in
      let d4 = record d3 { password = d.password } in
      let d5 = record d4 { community = d.community } in
      let d6 = record d5 { use_https = d.use_https } in
      parse_lines-field_line fraction 2 _ _ (codes "- name") d.name _
        (switch-device fraction c d.name h.name_plain.0 cur) refl h.name_plain.1
      ∙ parse_lines-field_line fraction 4 _ _ (codes "type") d.type _
          (device_type fraction c' d0 d.type h.type_plain.0) refl h.type_plain.1
      ∙ parse_lines-field_line fraction 4 _ _ (codes "address") d.address _
          (device_address fraction c' d1 d.address h.address_plain.0) refl h.address_plain.1
      ∙ parse_lines-field_line fraction 4 _ _ (codes "username") d.username _
          (device_username fraction c' d2 d.username h.username_plain.0) refl h.username_plain.1
      ∙ parse_lines-field_line fraction 4 _ _ (codes "password") d.password _
          (device_password fraction c' d3 d.password h.password_plain.0) refl h.password_plain.1
      ∙ parse_lines-field_line fraction 4 _ _ (codes "community") d.community _
          (device_community fraction c' d4 d.community h.community_plain.0) refl h.community_plain.1
      ∙ parse_lines-field_line fraction 4 _ _ (codes "use_https") (print_bool d.use_https) _
          (device_use_https fraction c' d5 d.use_https) refl (length-print_bool d.use_https)
      ∙ parse_lines-field_line fraction 4 _ _ (codes "insecure") (print_bool d.insecure) _
          (device_insecure fraction c' d6 d.insecure) refl (length-print_bool d.insecure)

  pub parse_lines-notifier_lines :
      (c : Config) (cur : Option Notifier) (n : Notifier) (lines : List Str)
      → IsPrintableNotifier n
      → parse_lines fraction (in_notifier c cur) (notifier_lines n lines)
        ≡ parse_lines fraction (in_notifier (with_notifier c cur) (some n)) lines
  parse_lines-notifier_lines c cur n lines h =
      let c' = with_notifier c cur in
      let n0 = new_notifier n.type in
      let n1 = record n0 { bot_token = n.bot_token } in
      let n2 = record n1 { chat_id = n.chat_id } in
      let n3 = record n2 { smtp_server = n.smtp_server } in
      let n4 = record n3 { smtp_port = n.smtp_port } in
      let n5 = record n4 { username = n.username } in
      let n6 = record n5 { password = n.password } in
      let n7 = record n6 { from = n.from } in
      let n8 = record n7 { to = n.to } in
      parse_lines-field_line fraction 2 _ _ (codes "- type") n.type _
        (switch-notifier fraction c n.type h.type_plain.0 cur) refl h.type_plain.1
      ∙ parse_lines-field_line fraction 4 _ _ (codes "bot_token") n.bot_token _
          (notifier_bot_token fraction c' n0 n.bot_token h.bot_token_plain.0) refl
          h.bot_token_plain.1
      ∙ parse_lines-field_line fraction 4 _ _ (codes "chat_id") n.chat_id _
          (notifier_chat_id fraction c' n1 n.chat_id h.chat_id_plain.0) refl h.chat_id_plain.1
      ∙ parse_lines-field_line fraction 4 _ _ (codes "smtp_server") n.smtp_server _
          (notifier_smtp_server fraction c' n2 n.smtp_server h.smtp_server_plain.0) refl
          h.smtp_server_plain.1
      ∙ parse_lines-field_line fraction 4 _ _ (codes "smtp_port") (format_int n.smtp_port) _
          (notifier_smtp_port fraction c' n3 n.smtp_port h.smtp_port_int) refl
          (short (length-format_int n.smtp_port h.smtp_port_int))
      ∙ parse_lines-field_line fraction 4 _ _ (codes "username") n.username _
          (notifier_username fraction c' n4 n.username h.username_plain.0) refl h.username_plain.1
      ∙ parse_lines-field_line fraction 4 _ _ (codes "password") n.password _
          (notifier_password fraction c' n5 n.password h.password_plain.0) refl h.password_plain.1
      ∙ parse_lines-field_line fraction 4 _ _ (codes "from") n.from _
          (notifier_from fraction c' n6 n.from h.from_plain.0) refl h.from_plain.1
      ∙ parse_lines-field_line fraction 4 _ _ (codes "to") (join b',' n.to) _
          (notifier_to fraction c' n7 n.to h.to_addresses) refl h.to_short
      ∙ parse_lines-field_line fraction 4 _ _ (codes "url") n.url _
          (notifier_url fraction c' n8 n.url h.url_plain.0) refl h.url_plain.1
