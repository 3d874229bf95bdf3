-- ===== src/Config/Load.antt =====
-- internal/config/config.go: Load, line by line.
use whatunga.Prelude.{
  ℕ, Bool, ◌&&◌, ◌||◌, Option, none, some, List, [], ◌∷◌, Str, codes, str_eq, has_prefix, ◌==◌, ltb,
  if◌then◌else◌, is_nil, is_some, length,
}
use whatunga.Prelude.Int.{pos}
use whatunga.Prelude.Atoi.{atoi}
use whatunga.Prelude.Duration.{parse_duration}
use whatunga.Prelude.Split.{split}
use whatunga.Prelude.Trim.{trim_space}
use whatunga.Config.{
  Config, opening, reading, invalid_poll_interval, invalid_history_size, invalid_notify_threshold,
  no_devices, Result, ok, err, ◌>>=◌, top, in_devices, in_notifiers, Parser, value_after_colon,
  apply_notifier_field, flush_device, flush_notifier, new_device, new_notifier, is_devices,
  is_notifiers, set_device, set_notifier, set_number,
}

-- What Open and Read give: the bytes, and whether reading ended by an error.
pub record File : Type 0 where
  pub bytes : Str
  pub failed : Bool

-- bufio.ScanLines drops the empty rest behind the last newline, and one carriage return.
unfoldable pub drop_last_blank : List Str → List Str
drop_last_blank [] = []
drop_last_blank (line ∷ []) = if is_nil line then [] else line ∷ []
drop_last_blank (line ∷ next ∷ lines) = line ∷ drop_last_blank (next ∷ lines)

unfoldable pub drop_cr : Str → Str
drop_cr [] = []
drop_cr (c ∷ []) = if c == 13 then [] else c ∷ []
drop_cr (c ∷ d ∷ s) = c ∷ drop_cr (d ∷ s)

-- The lines of a file, their carriage returns kept.
unfoldable pub scan_lines : Str → List Str
unfolding drop_last_blank
scan_lines s = drop_last_blank (split 10 s)

-- A line and its newline do not fit in the Scanner's buffer.
abbrev pub max_line : ℕ
max_line = 65535

abbrev pub default_config : Config
default_config = record {
  poll_interval = pos 30000000000;
  history_size = pos 120;
  listen_addr = codes ":8080";
  web_addr = codes ":8081";
  sqlite_path = codes "whatunga.db";
  notify_threshold = pos 3;
  devices = [];
  notifiers = [];
}

abbrev pub new_parser : Parser
new_parser = record {
  config = default_config;
  section = top;
  current_device = none;
  current_notifier = none;
}

-- `section == "devices" && currentDevice != nil`
abbrev pub has_device : Parser → Bool
has_device p = is_devices p.section && is_some p.current_device

-- What follows the loop.
unfoldable pub finish : Bool → Parser → Result Config
finish failed p =
    let config = (flush_notifier (flush_device p)).config in
    if failed then err reading else if is_nil config.devices then err no_devices else ok config

module _ (fraction : ℕ → ℕ → ℕ → ℕ) where
  -- The cases from poll_interval on, which every section has.
  unfoldable pub setting : Parser → Str → Result Parser
  setting p trimmed =
      let value = value_after_colon trimmed in
      if has_prefix trimmed (codes "poll_interval:")
      then set_number p invalid_poll_interval (λ c n. record c { poll_interval = n })
          (parse_duration fraction value)
      else if has_prefix trimmed (codes "history_size:")
      then set_number p invalid_history_size (λ c n. record c { history_size = n }) (atoi value)
      else if has_prefix trimmed (codes "listen_addr:")
      then ok (record p { config = record p.config { listen_addr = value } })
      else if has_prefix trimmed (codes "web_addr:")
      then ok (record p { config = record p.config { web_addr = value } })
      else if has_prefix trimmed (codes "sqlite_path:")
      then ok (record p { config = record p.config { sqlite_path = value } })
      else if has_prefix trimmed (codes "notify_threshold:")
      then set_number p invalid_notify_threshold (λ c n. record c { notify_threshold = n })
          (atoi value)
      else if is_notifiers p.section && is_some p.current_notifier
      then ok (set_notifier p (λ n. apply_notifier_field n trimmed))
      else ok p

  -- The switch on a line that is neither blank nor a comment.
  unfoldable pub switch : Parser → Str → Result Parser
  switch p trimmed =
      let value = value_after_colon trimmed in
      if str_eq trimmed (codes "devices:")
      then ok (record (flush_notifier (flush_device p)) { section = in_devices })
      else if str_eq trimmed (codes "notifiers:")
      then ok (record (flush_notifier (flush_device p)) { section = in_notifiers })
      else if has_prefix trimmed (codes "- name:") && is_devices p.section
      then ok (record (flush_device p) { current_device = some (new_device value) })
      else if has_prefix trimmed (codes "- type:") && is_notifiers p.section
      then ok (record (flush_notifier p) { current_notifier = some (new_notifier value) })
      else if has_prefix trimmed (codes "type:") && has_device p
      then ok (set_device p (λ d. record d { type = value }))
      else if has_prefix trimmed (codes "address:") && has_device p
      then ok (set_device p (λ d. record d { address = value }))
      else if has_prefix trimmed (codes "username:") && has_device p
      then ok (set_device p (λ d. record d { username = value }))
      else if has_prefix trimmed (codes "password:") && has_device p
      then ok (set_device p (λ d. record d { password = value }))
      else if has_prefix trimmed (codes "community:") && has_device p
      then ok (set_device p (λ d. record d { community = value }))
      else if has_prefix trimmed (codes "use_https:") && has_device p
      then ok (set_device p (λ d. record d { use_https = str_eq value (codes "true") }))
      else if has_prefix trimmed (codes "insecure:") && has_device p
      then ok (set_device p (λ d. record d { insecure = str_eq value (codes "true") }))
      else setting p trimmed

  -- The body of the loop, for a line that the scanner gives.
  unfoldable pub step : Parser → Str → Result Parser
  step p line =
      let trimmed = trim_space line in
      if is_nil trimmed || has_prefix trimmed (codes "#") then ok p else switch p trimmed

  -- A line that does not fit ends the scan, and Load reports it in the end.
  unfoldable pub scan_line : Parser → Str → Result Parser
  scan_line p line = if ltb max_line (length line) then err reading else step p (drop_cr line)

  unfoldable pub parse_lines : Parser → List Str → Result Parser
  parse_lines p [] = ok p
  parse_lines p (line ∷ lines) = scan_line p line >>= λ p'. parse_lines p' lines

  unfoldable pub load : Option File → Result Config
  load none = err opening
  load (some file) = do p ← parse_lines new_parser (scan_lines file.bytes); finish file.failed p
