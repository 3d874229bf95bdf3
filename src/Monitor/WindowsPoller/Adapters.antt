-- ===== src/Monitor/WindowsPoller/Adapters.antt =====
-- The whole output of the scripts: adapters, the status line, and addresses.
use whatunga.Prelude.{
  ◌≡◌, refl, sym, ap, ◌∙◌, Bool, true, false, some, List, [], ◌∷◌, ◌++◌, map, append-nil, All,
  All-append, Str, ◌==◌, ◌⊎◌, inl, inr,
}
use whatunga.Prelude.Int.{IsInt64}
use whatunga.Prelude.Atoi.{format_int}
use whatunga.Prelude.Split.{Without, split, split_part, split_last}
use whatunga.Prelude.Trim.{EndsSolid, EndsSolid-append}
use whatunga.Monitor.WindowsPoller.{interface_of_line, interfaces_of_lines, parse_interfaces}
use whatunga.Monitor.WindowsPoller.Csv.{
  Adapter, print_up, counters, csv_line, starts_solid, starts_solid-append, interface_of_adapter,
  trim_space_ended, csv_line-EndsSolid, interface_of_line-csv_line, format_int-Without,
}

-- The lines for the adapters, each but the last with its line end.
unfoldable pub csv : List Adapter → Str
csv [] = []
csv (a ∷ []) = csv_line a
csv (a ∷ b ∷ later) = (csv_line a ++ 13 ∷ []) ++ 10 ∷ csv (b ∷ later)

-- An adapter whose name is not empty, begins with an ASCII byte that is no space, and holds neither
-- a comma nor a newline; its counters are int64.
pub record IsAdapter (a : Adapter) : Type 0 where
  pub name_starts : starts_solid a.name ≡ true
  pub no_comma : Without b',' a.name
  pub no_newline : Without 10 a.name
  pub rx_int : IsInt64 a.rx
  pub tx_int : IsInt64 a.tx

print_up_newline : (b : Bool) → Without 10 (print_up b)
print_up_newline true = (refl, (refl, (refl, (refl, tt))))
print_up_newline false = (refl, (refl, (refl, (refl, (refl, tt)))))

csv_line-Without : (a : Adapter) → IsAdapter a → Without 10 (csv_line a)
csv_line-Without a h =
    All-append (λ c. (c == 10) ≡ false) a.name (b',' ∷ counters a) h.no_newline
      (
        refl,
        All-append (λ c. (c == 10) ≡ false) (print_up a.up)
            (b',' ∷ (format_int a.rx ++ b',' ∷ format_int a.tx)) (print_up_newline a.up)
            (
              refl,
              All-append (λ c. (c == 10) ≡ false) (format_int a.rx) (b',' ∷ format_int a.tx)
                  (format_int-Without 10 a.rx refl) (refl, format_int-Without 10 a.tx refl),
            ),
      )

csv-starts_solid :
    (a : Adapter) (later : List Adapter) → IsAdapter a → starts_solid (csv (a ∷ later)) ≡ true
unfolding csv
csv-starts_solid a [] h = starts_solid-append a.name (b',' ∷ counters a) h.name_starts
csv-starts_solid a (b ∷ later) h =
    starts_solid-append (csv_line a ++ 13 ∷ []) (10 ∷ csv (b ∷ later)) (
      starts_solid-append (csv_line a) (13 ∷ [])
        (starts_solid-append a.name (b',' ∷ counters a) h.name_starts))

csv-EndsSolid : (a : Adapter) (later : List Adapter) → EndsSolid (csv (a ∷ later))
unfolding csv
csv-EndsSolid a [] = csv_line-EndsSolid a
csv-EndsSolid a (b ∷ later) =
    EndsSolid-append (csv_line a ++ 13 ∷ []) (10 ∷ csv (b ∷ later))
      (EndsSolid-append (10 ∷ []) (csv (b ∷ later)) (csv-EndsSolid b later))

one_line :
    (a : Adapter) (t : Str)
    → IsAdapter a
    → (t ≡ []) ⊎ (t ≡ 13 ∷ []) ⊎ (t ≡ 13 ∷ 10 ∷ [])
    → interface_of_line (csv_line a ++ t) ≡ some (interface_of_adapter a)
one_line a t h ending =
    interface_of_line-csv_line a t h.name_starts h.no_comma h.rx_int h.tx_int ending

last_line :
    (a : Adapter) → IsAdapter a → interface_of_line (csv_line a) ≡ some (interface_of_adapter a)
last_line a h = ap interface_of_line (sym (append-nil (csv_line a))) ∙ one_line a [] h (inl refl)

interfaces_of_lines-csv :
    (a : Adapter) (later : List Adapter)
    → All IsAdapter (a ∷ later)
    → interfaces_of_lines (split 10 (csv (a ∷ later))) ≡ map interface_of_adapter (a ∷ later)
unfolding csv interfaces_of_lines
interfaces_of_lines-csv a [] h =
    rw (split_last 10 (csv_line a) (csv_line-Without a h.0), last_line a h.0) refl
interfaces_of_lines-csv a (b ∷ later) h =
    rw
      (
        split_part 10 (csv_line a ++ 13 ∷ []) (csv (b ∷ later)) (
            All-append (λ c. (c == 10) ≡ false) (csv_line a) (13 ∷ []) (csv_line-Without a h.0)
              (refl, tt)),
        one_line a (13 ∷ []) h.0 (inr (inl refl)),
      )
      (ap (◌∷◌ (interface_of_adapter a)) (interfaces_of_lines-csv b later h.1))

-- The output of the script for at least one adapter, a line for each with a carriage return and a
-- newline, is read back as the adapters, in order, with their states and counters. The adapters'
-- names are not empty, begin with an ASCII byte that is no space, and hold neither a comma nor a
-- newline; their counters are int64.
pub parse_interfaces-csv :
    (a : Adapter) (later : List Adapter)
    → All IsAdapter (a ∷ later)
    → parse_interfaces (csv (a ∷ later) ++ 13 ∷ 10 ∷ []) ≡ map interface_of_adapter (a ∷ later)
unfolding parse_interfaces
parse_interfaces-csv a later h =
    ap (λ (s : Str). interfaces_of_lines (split 10 s))
      (trim_space_ended (csv (a ∷ later)) (13 ∷ 10 ∷ []) (csv-starts_solid a later h.0)
        (csv-EndsSolid a later) (inr (inr refl)))
    ∙ interfaces_of_lines-csv a later h
