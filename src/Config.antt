-- ===== src/Config.antt =====
-- internal/config/config.go: the line-driven parser of the configuration. time.ParseDuration's
-- float64 part is an argument, and a file is what reading it gives.
pub mod Load
mod Print
mod Values
mod Lines
mod Fields
mod Attributes
mod Entries
mod Newlines
mod RoundTrip
mod Settled
mod Comments
mod Examples
use whatunga.Prelude.{
  ℕ, Bool, true, false, ◌&&◌, ◌||◌, Option, none, some, List, [], ◌∷◌, ◌++◌, Str, codes, str_eq,
  has_prefix, ◌==◌, ltb, if◌then◌else◌, is_nil, is_some, length,
}
use mathlib.Core.Option
use whatunga.Prelude.Int.{ℤ, pos}
use whatunga.Prelude.Atoi.{atoi}
use whatunga.Prelude.Duration.{parse_duration}
use whatunga.Prelude.Split.{split}
use whatunga.Prelude.Trim.{trim_space, trim_set}

abbrev pub type_router_os : Str
type_router_os = codes "routeros"

abbrev pub type_snmp_firewall : Str
type_snmp_firewall = codes "snmp-firewall"

pub record Device : Type 0 where
  pub name : Str
  pub type : Str
  pub address : Str
  pub username : Str
  pub password : Str
  pub community : Str
  pub use_https : Bool
  pub insecure : Bool

pub record Notifier : Type 0 where
  pub type : Str
  pub bot_token : Str
  pub chat_id : Str
  pub smtp_server : Str
  pub smtp_port : ℤ
  pub username : Str
  pub password : Str
  pub from : Str
  pub to : List Str
  pub url : Str

-- The interval is in nanoseconds.
pub record Config : Type 0 where
  pub poll_interval : ℤ
  pub history_size : ℤ
  pub listen_addr : Str
  pub web_addr : Str
  pub sqlite_path : Str
  pub notify_threshold : ℤ
  pub devices : List Device
  pub notifiers : List Notifier

pub data LoadError : Type 0 where
  opening reading invalid_poll_interval invalid_history_size invalid_notify_threshold no_devices :
      LoadError

pub data Result {ℓ} (A : Type ℓ) : Type ℓ where
  ok : A → Result A
  err : LoadError → Result A

infixl 5 ◌>>=◌
abbrev pub ◌>>=◌ {ℓ κ} : {A : Type ℓ} {B : Type κ} → Result A → (A → Result B) → Result B
ok a >>= f = f a
err e >>= f = err e

-- The values "", "devices" and "notifiers".
pub data Section : Type 0 where
  top in_devices in_notifiers : Section

-- The variables of Load.
pub record Parser : Type 0 where
  pub config : Config
  pub section : Section
  pub current_device : Option Device
  pub current_notifier : Option Notifier

-- The text behind the first colon, or none.
unfoldable pub after_colon : Str → Option Str
after_colon [] = none
after_colon (c ∷ s) = let rest = after_colon s in if c == b':' then some s else rest

abbrev pub is_quote : ℕ → Bool
is_quote c = c == b'"' || c == 0x27

unquoted : Option Str → Str
unquoted none = []
unquoted (some s) = trim_set is_quote (trim_space s)

unfoldable pub value_after_colon : Str → Str
unfolding unquoted
value_after_colon line = unquoted (after_colon line)

unfoldable pub apply_device_defaults : Device → Device
apply_device_defaults d =
    if str_eq d.type type_snmp_firewall && is_nil d.community
    then record d { community = codes "public" }
    else d

-- The addresses of one `to:` line, without the blank ones.
unfoldable pub addresses : List Str → List Str
addresses [] = []
addresses (part ∷ parts) =
    let addr = trim_space part in
    let rest = addresses parts in if is_nil addr then rest else addr ∷ rest

with_port : Notifier → Option ℤ → Notifier
with_port n none = n
with_port n (some port) = record n { smtp_port = port }

unfoldable pub apply_notifier_field : Notifier → Str → Notifier
unfolding with_port
apply_notifier_field n trimmed =
    let value = value_after_colon trimmed in
    if has_prefix trimmed (codes "bot_token:")
    then record n { bot_token = value }
    else if has_prefix trimmed (codes "chat_id:")
    then record n { chat_id = value }
    else if has_prefix trimmed (codes "smtp_server:")
    then record n { smtp_server = value }
    else if has_prefix trimmed (codes "smtp_port:")
    then with_port n (atoi value)
    else if has_prefix trimmed (codes "username:")
    then record n { username = value }
    else if has_prefix trimmed (codes "password:")
    then record n { password = value }
    else if has_prefix trimmed (codes "from:")
    then record n { from = value }
    else if has_prefix trimmed (codes "to:")
    then record n { to = n.to ++ addresses (split b',' value) }
    else if has_prefix trimmed (codes "url:")
    then record n { url = value }
    else n

flushed_device : Option Device → Parser → Parser
flushed_device none p = p
flushed_device (some d) p = record p {
  config = record p.config { devices = p.config.devices ++ apply_device_defaults d ∷ [] };
  current_device = none;
}

unfoldable pub flush_device : Parser → Parser
unfolding flushed_device
flush_device p = flushed_device p.current_device p

flushed_notifier : Option Notifier → Parser → Parser
flushed_notifier none p = p
flushed_notifier (some n) p = record p {
  config = record p.config { notifiers = p.config.notifiers ++ n ∷ [] };
  current_notifier = none;
}

unfoldable pub flush_notifier : Parser → Parser
unfolding flushed_notifier
flush_notifier p = flushed_notifier p.current_notifier p

abbrev pub new_device : Str → Device
new_device name = record {
  name = name;
  type = type_router_os;
  address = [];
  username = [];
  password = [];
  community = [];
  use_https = false;
  insecure = false;
}

abbrev pub new_notifier : Str → Notifier
new_notifier type = record {
  type = type;
  bot_token = [];
  chat_id = [];
  smtp_server = [];
  smtp_port = pos 0;
  username = [];
  password = [];
  from = [];
  to = [];
  url = [];
}

abbrev pub is_devices : Section → Bool
is_devices in_devices = true
is_devices _ = false

abbrev pub is_notifiers : Section → Bool
is_notifiers in_notifiers = true
is_notifiers _ = false

-- An assignment to a field of the current device, which is not nil.
abbrev pub set_device : Parser → (Device → Device) → Parser
set_device p change = record p { current_device = Option.map change p.current_device }

abbrev pub set_notifier : Parser → (Notifier → Notifier) → Parser
set_notifier p change = record p { current_notifier = Option.map change p.current_notifier }

-- A setting whose value may be no number.
unfoldable pub set_number : Parser → LoadError → (Config → ℤ → Config) → Option ℤ → Result Parser
set_number p e change none = err e
set_number p e change (some n) = ok (record p { config = change p.config n })
