-- ===== src/Monitor/WindowsPoller/Csv.antt =====
-- One line of the script's output about the adapters.
use whatunga.Prelude.{
  ℕ, suc, ◌≡◌, ◌≢◌, refl, ap, ◌∙◌, arith, Bool, true, false, not, ◌&&◌, some, List, [], ◌∷◌, ◌++◌,
  All, Str, codes, str_eq, is_nil, ◌==◌, ◌⊎◌,
}
use whatunga.Prelude.Int.{ℤ, pos, negsuc, IsInt64}
use whatunga.Prelude.Decimal.{
  is_digit, format_uint, IsDigits, format_uint-IsDigits, format_uint-ne-nil,
}
use whatunga.Prelude.Atoi.{format_int}
use whatunga.Prelude.Split.{Without, split_n, split_n_part}
use whatunga.Prelude.Trim.{
  is_solid, trim_space, EndsSolid, EndsSolid-append, EndsSolid-AllSolid, trim_space_line,
}
use whatunga.Monitor.{Interface}
use whatunga.Monitor.Fields.{atoi64_or-format_int}
use whatunga.Monitor.WindowsPoller.{interface_of_fields, interface_of_line}

pub record Adapter : Type 0 where
  pub name : Str
  pub up : Bool
  pub rx : ℤ
  pub tx : ℤ

abbrev pub print_up : Bool → Str
print_up true = codes "True"
print_up false = codes "False"

abbrev pub counters : Adapter → Str
counters a = print_up a.up ++ b',' ∷ (format_int a.rx ++ b',' ∷ format_int a.tx)

-- The line that interfacesScript writes.
abbrev pub csv_line : Adapter → Str
csv_line a = a.name ++ b',' ∷ counters a

abbrev pub starts_solid : Str → Bool
starts_solid [] = false
starts_solid (c ∷ s) = is_solid c

unfoldable pub interface_of_adapter : Adapter → Interface
interface_of_adapter a = record {
  name = a.name;
  type = codes "ethernet";
  running = a.up;
  disabled = false;
  rx_bytes = a.rx;
  tx_bytes = a.tx;
}

abbrev pub IsLineEnd : Str → Type 0
IsLineEnd t = (t ≡ []) ⊎ (t ≡ 13 ∷ []) ⊎ (t ≡ 13 ∷ 10 ∷ [])

digits_solid : (s : Str) → IsDigits s → All (λ c. is_solid c ≡ true) s
digits_solid [] h = tt
digits_solid (c ∷ s) h = let digit : is_digit c ≡ true = h.0 in (ground arith, digits_solid s h.1)

digits_EndsSolid : (s : Str) → s ≢ [] → IsDigits s → EndsSolid s
digits_EndsSolid [] ne h = absurd (ne refl)
digits_EndsSolid (c ∷ s) ne h = EndsSolid-AllSolid c s (digits_solid (c ∷ s) h)

format_int-EndsSolid : (n : ℤ) → EndsSolid (format_int n)
unfolding format_int
format_int-EndsSolid (pos n) =
    digits_EndsSolid (format_uint n) (format_uint-ne-nil n) (format_uint-IsDigits n)
format_int-EndsSolid (negsuc n) = EndsSolid-append (b'-' ∷ []) (format_uint (suc n)) (
    digits_EndsSolid (format_uint (suc n)) (format_uint-ne-nil (suc n))
      (format_uint-IsDigits (suc n)))

-- A byte that no number holds.
abbrev pub is_apart : ℕ → Bool
is_apart c = not (is_digit c) && not (c == b'-')

digits-Without : (sep : ℕ) (s : Str) → is_apart sep ≡ true → IsDigits s → Without sep s
digits-Without sep [] k h = tt
digits-Without sep (c ∷ s) k h =
    let digit : is_digit c ≡ true = h.0 in (ground arith, digits-Without sep s k h.1)

pub format_int-Without : (sep : ℕ) (n : ℤ) → is_apart sep ≡ true → Without sep (format_int n)
unfolding format_int
format_int-Without sep (pos n) k = digits-Without sep (format_uint n) k (format_uint-IsDigits n)
format_int-Without sep (negsuc n) k =
    (ground arith, digits-Without sep (format_uint (suc n)) k (format_uint-IsDigits (suc n)))

pub print_up-Without : (b : Bool) → Without b',' (print_up b)
print_up-Without true = (refl, (refl, (refl, (refl, tt))))
print_up-Without false = (refl, (refl, (refl, (refl, (refl, tt)))))

counters-EndsSolid : (a : Adapter) → EndsSolid (counters a)
counters-EndsSolid a =
    EndsSolid-append (print_up a.up) (b',' ∷ (format_int a.rx ++ b',' ∷ format_int a.tx)) (
      EndsSolid-append (b',' ∷ []) (format_int a.rx ++ b',' ∷ format_int a.tx) (
        EndsSolid-append (format_int a.rx) (b',' ∷ format_int a.tx)
          (EndsSolid-append (b',' ∷ []) (format_int a.tx) (format_int-EndsSolid a.tx))))

pub csv_line-EndsSolid : (a : Adapter) → EndsSolid (csv_line a)
csv_line-EndsSolid a =
    EndsSolid-append a.name (b',' ∷ counters a)
      (EndsSolid-append (b',' ∷ []) (counters a) (counters-EndsSolid a))

pub trim_space_ended :
    (s t : Str) → starts_solid s ≡ true → EndsSolid s → IsLineEnd t → trim_space (s ++ t) ≡ s
trim_space_ended [] t h e ending = cc
trim_space_ended (c ∷ s) t h e ending = trim_space_line c s t h e ending

pub starts_solid-append : (s t : Str) → starts_solid s ≡ true → starts_solid (s ++ t) ≡ true
starts_solid-append [] t h = cc
starts_solid-append (c ∷ s) t h = h

print_up_true : (b : Bool) → str_eq (print_up b) (codes "True") ≡ b
unfolding str_eq
print_up_true true = refl
print_up_true false = refl

pub split_n-counters :
    (name : Str) (a : Adapter)
    → Without b',' name
    → split_n 4 b',' (name ++ b',' ∷ counters a)
      ≡ name ∷ print_up a.up ∷ format_int a.rx ∷ format_int a.tx ∷ []
split_n-counters name a h =
    split_n_part 2 b',' name (counters a) h
    ∙ ap (◌∷◌ name) (
        split_n_part 1 b',' (print_up a.up) (format_int a.rx ++ b',' ∷ format_int a.tx)
          (print_up-Without a.up))
    ∙ ap (λ (l : List Str). name ∷ print_up a.up ∷ l)
        (split_n_part 0 b',' (format_int a.rx) (format_int a.tx)
          (format_int-Without b',' a.rx refl))
    ∙ (unfold split_n in refl)

pub not_nil_append : (s : Str) (c : ℕ) (t : Str) → is_nil (s ++ c ∷ t) ≡ false
not_nil_append [] c t = refl
not_nil_append (d ∷ s) c t = refl

pub interface_of_line-csv_line :
    (a : Adapter) (t : Str)
    → starts_solid a.name ≡ true
    → Without b',' a.name
    → IsInt64 a.rx
    → IsInt64 a.tx
    → IsLineEnd t
    → interface_of_line (csv_line a ++ t) ≡ some (interface_of_adapter a)
unfolding interface_of_line interface_of_adapter interface_of_fields
interface_of_line-csv_line a t h w hr ht ending =
    rw
      (
        trim_space_ended (csv_line a) t (starts_solid-append a.name (b',' ∷ counters a) h)
            (csv_line-EndsSolid a) ending,
        not_nil_append a.name b',' (counters a),
        split_n-counters a.name a w,
        print_up_true a.up,
        atoi64_or-format_int a.rx (pos 0) hr,
        atoi64_or-format_int a.tx (pos 0) ht,
      )
      refl
