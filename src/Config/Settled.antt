-- ===== src/Config/Settled.antt =====
-- What every configuration that Load (internal/config/config.go) returns has, whatever the file.
use whatunga.Prelude.{
  ℕ, ◌≡◌, ◌≢◌, refl, arith, Bool, true, false, not, ◌&&◌, Option, none, some, List, [], ◌∷◌, ◌++◌,
  Str, All, str_eq, str_eq_iff, is_nil,
}
use whatunga.Config.{
  Device, Config, Parser, Result, ok, err, ◌>>=◌, type_snmp_firewall, apply_device_defaults,
  flush_device, flush_notifier, flushed_device, flushed_notifier, set_number,
}
use whatunga.Prelude.Trim.{trim_space}
use whatunga.Config.Load.{
  drop_cr, File, setting, switch, step, scan_line, parse_lines, finish, load, new_parser,
  scan_lines,
}

abbrev is_settled : Device → Bool
is_settled d = not (str_eq d.type type_snmp_firewall && is_nil d.community)

all_settled : List Device → Bool
all_settled [] = true
all_settled (d ∷ ds) = is_settled d && all_settled ds

abbrev settled : Parser → Bool
settled p = all_settled p.config.devices

apply_device_defaults-settled : (d : Device) → is_settled (apply_device_defaults d) ≡ true
unfolding apply_device_defaults
apply_device_defaults-settled d = ground arith

all_settled-append_one :
    (ds : List Device) (d : Device)
    → all_settled ds ≡ true
    → is_settled d ≡ true
    → all_settled (ds ++ d ∷ []) ≡ true
unfolding all_settled
all_settled-append_one [] d h k = rw k refl
all_settled-append_one (e ∷ ds) d h k = ground (arith, all_settled-append_one ds d)

flush_device-settled : (p : Parser) → settled p ≡ true → settled (flush_device p) ≡ true
unfolding flush_device
flush_device-settled p h = elim p.current_device as (λ cur. settled (flushed_device cur p) ≡ true) [
  | none ↦ h
  | some d ↦
      all_settled-append_one p.config.devices (apply_device_defaults d) h
        (apply_device_defaults-settled d)
]

flush_notifier-settled : (p : Parser) → settled p ≡ true → settled (flush_notifier p) ≡ true
unfolding flush_notifier
flush_notifier-settled p h =
    elim p.current_notifier as (λ cur. settled (flushed_notifier cur p) ≡ true) [
      | none ↦ h
      | some n ↦ h
    ]

-- Of a result: its parser is settled.
abbrev passes : Result Parser → Bool
passes (ok p) = settled p
passes (err e) = true

passes_bind :
    (r : Result Parser) (f : Parser → Result Parser)
    → passes r ≡ true
    → ((q : Parser) → settled q ≡ true → passes (f q) ≡ true)
    → passes (r >>= f) ≡ true
passes_bind (ok q) f h k = k q h
passes_bind (err e) f h k = refl

module _ (fraction : ℕ → ℕ → ℕ → ℕ) where
  setting-settled : (p : Parser) (t : Str) → settled p ≡ true → passes (setting fraction p t) ≡ true
  unfolding setting set_number
  setting-settled p t h = ground arith

  switch-settled : (p : Parser) (t : Str) → settled p ≡ true → passes (switch fraction p t) ≡ true
  unfolding switch
  switch-settled p t h = ground (
    arith,
    setting-settled p t,
    flush_device-settled p,
    flush_notifier-settled p,
    flush_notifier-settled (flush_device p),
  )

  scan_line-settled :
      (p : Parser) (line : Str) → settled p ≡ true → passes (scan_line fraction p line) ≡ true
  unfolding scan_line step
  scan_line-settled p line h = ground (arith, switch-settled p (trim_space (drop_cr line)))

  parse_lines-settled :
      (p : Parser) (lines : List Str)
      → settled p ≡ true
      → passes (parse_lines fraction p lines) ≡ true
  unfolding parse_lines
  parse_lines-settled p [] h = h
  parse_lines-settled p (line ∷ lines) h =
      passes_bind (scan_line fraction p line) (λ q. parse_lines fraction q lines)
        (scan_line-settled p line h) (λ q k. parse_lines-settled q lines k)

-- A device with what it needs: an SNMP device has a community.
abbrev pub IsSettled : Device → Type 0
IsSettled d = d.type ≡ type_snmp_firewall → d.community ≢ []

settled_lem : (d : Device) → is_settled d ≡ true → IsSettled d
settled_lem d h e none_given = ground (arith, str_eq_iff d.type type_snmp_firewall)

All-IsSettled : (ds : List Device) → all_settled ds ≡ true → All IsSettled ds
unfolding all_settled
All-IsSettled [] h = tt
All-IsSettled (d ∷ ds) h = (settled_lem d (ground arith), All-IsSettled ds (ground arith))

-- The result of the part behind the loop.
finish-settled :
    (failed : Bool) (p : Parser) (c : Config)
    → settled p ≡ true
    → finish failed p ≡ ok c
    → (is_nil c.devices ≡ false) × (all_settled c.devices ≡ true)
unfolding finish
finish-settled failed p c h e =
    let flushed : settled (flush_notifier (flush_device p)) ≡ true =
      flush_notifier-settled (flush_device p) (flush_device-settled p h) in
    (ground arith, ground arith)

load_rest :
    (fraction : ℕ → ℕ → ℕ → ℕ) (failed : Bool) (r : Result Parser) (c : Config)
    → passes r ≡ true
    → (r >>= finish failed) ≡ ok c
    → (is_nil c.devices ≡ false) × (all_settled c.devices ≡ true)
load_rest fraction failed (ok p) c h e = finish-settled failed p c h e
load_rest fraction failed (err x) c h e = cc

-- Whatever the file, a configuration that Load returns has a device, and each SNMP device of it has
-- a community.
pub load-IsSettled :
    (fraction : ℕ → ℕ → ℕ → ℕ) (file : Option File) (c : Config)
    → load fraction file ≡ ok c
    → (c.devices ≢ []) × All IsSettled c.devices
unfolding load
load-IsSettled fraction none c e = cc
load-IsSettled fraction (some file) c e =
    let (some_device, all) =
      load_rest fraction file.failed (parse_lines fraction new_parser (scan_lines file.bytes)) c
        (parse_lines-settled fraction new_parser (scan_lines file.bytes)
          (unfold all_settled in refl))
        e in
    (λ nothing. cc, All-IsSettled c.devices all)
