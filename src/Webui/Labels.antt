-- ===== src/Webui/Labels.antt =====
-- The functions that render of internal/webui/server.go gives to the templates.
use mathlib.Core.Logic.{dite, dif_pos, dif_neg}
use mathlib.Core.WellFounded.{Acc}
use native.Mathlib.Bridge.{le_prop}
use native.Mathlib.Decide.{dec_lt}
use whatunga.Prelude.{
  ℕ, zero, suc, ◌*◌, ◌/◌, ◌^◌, ◌≤◌, ◌<◌, ◌≡◌, refl, ap, arith, false, not, Option, none, some, [],
  ◌∷◌, ◌++◌, Str, codes, str_eq, ◌==◌, ltb, if◌then◌else◌,
}
use whatunga.Prelude.Int.{ℤ, pos, negsuc, ltb_ℤ}
use whatunga.Prelude.Order.{lt_wf}
use whatunga.Prelude.Atoi.{format_int}
use whatunga.I18n.{translate}
use whatunga.I18n.Tables.{translations}
use whatunga.Monitor.{Kind}
use whatunga.Notify.{Status, up, down, unknown}

unfoldable pub cpu_class : ℤ → Str
cpu_class load =
    if not (ltb_ℤ load (pos 80))
    then codes "high"
    else if not (ltb_ℤ load (pos 50))
    then codes "medium"
    else codes "low"

-- strings.ReplaceAll with single bytes.
unfoldable pub replace_byte : ℕ → ℕ → Str → Str
replace_byte from to [] = []
replace_byte from to (c ∷ s) = (if c == from then to else c) ∷ replace_byte from to s

unfoldable pub kind_label : Str → Kind → Str
kind_label lang kind = translate translations lang (codes "kind_" ++ replace_byte b'-' b'_' kind)

-- `to_lower` is strings.ToLower.
unfoldable pub health_class : (Str → Str) → Str → Str
health_class to_lower health =
    let lower = to_lower health in
    if str_eq lower (codes "ok")
    then codes "ok"
    else if str_eq lower (codes "warning")
    then codes "warning"
    else codes "critical"

unfoldable pub status_label : Str → Status → Str
status_label lang up = translate translations lang (codes "status_up")
status_label lang down = translate translations lang (codes "status_down")
status_label lang unknown = translate translations lang (codes "status_unknown")

unfoldable pub status_class : Status → Str
status_class up = codes "up"
status_class down = codes "down"
status_class unknown = codes "unknown"

pub kilo-lt : (v : ℕ) → 1023 < v → v / 1024 < v
kilo-lt v h = omega arith

-- The loop that counts the units: v, div and exp. A further unit is taken while v is at least 1024.
unfoldable pub units_loop : (v : ℕ) → ℕ → ℕ → Acc ◌<◌ v → ℕ × ℕ
units_loop v div exp (Acc.intro _ smaller) =
    dite (dec_lt 1023 v)
      (λ more. units_loop (v / 1024) (div * 1024) (suc exp) (smaller (v / 1024) (kilo-lt v more)))
      (λ _. (div, exp))

-- units[exp]; none where the index is out of range, which panics.
unfoldable pub unit_at : ℕ → Option ℕ
unit_at exp =
    if exp == 0
    then some b'K'
    else if exp == 1
    then some b'M'
    else if exp == 2
    then some b'G'
    else if exp == 3
    then some b'T'
    else if exp == 4
    then some b'P'
    else if exp == 5
    then some b'E'
    else none

-- `%.1f` of a quotient of float64, which is an argument.
module _ (tenths : ℕ → ℕ → Str) where
  with_unit : ℕ → ℕ → Option ℕ → Option Str
  with_unit n div none = none
  with_unit n div (some unit) = some (tenths n div ++ b' ' ∷ unit ∷ codes "iB")

  unfoldable pub format_bytes : ℤ → Option Str
  unfolding with_unit
  format_bytes (negsuc n) = some (format_int (negsuc n) ++ codes " B")
  format_bytes (pos n) =
      let (div, exp) = units_loop (n / 1024) 1024 0 (lt_wf.apply (n / 1024)) in
      if ltb n 1024 then some (format_int (pos n) ++ codes " B") else with_unit n div (unit_at exp)

-- 1024 to the power of `k`.
pub kib : ℕ → ℕ
kib zero = 1
kib (suc k) = kib k * 1024

kib_pos : (k : ℕ) → 0 < kib k
unfolding kib
kib_pos zero = omega arith
kib_pos (suc k) = omega (arith, kib_pos k)

mul_mono : (a b d : ℕ) → a ≤ b → a * d ≤ b * d
mul_mono a b d h = grind arith

mul_shift : (a d : ℕ) → a * (d * 1024) ≡ a * 1024 * d
mul_shift a d = grind arith

-- The divisor is a power of 1024 that is at most the number, and the next power is above it.
abbrev IsScale : ℕ → ℕ × ℕ → Type 0
IsScale n (div, e) = (div ≡ kib (suc e)) × (kib (suc e) ≤ n) × (n < kib (suc e) * 1024)

kib_next : (d exp : ℕ) → d ≡ kib (suc exp) → d * 1024 ≡ kib (suc (suc exp))
unfolding kib
kib_next d exp h = ap (λ (k : ℕ). k * 1024) h

-- The loop keeps v * div ≤ n < (v + 1) * div.
units_loop-IsScale :
    (v d exp n : ℕ) (w : Acc ◌<◌ v)
    → d ≡ kib (suc exp)
    → 1 ≤ v
    → v * d ≤ n
    → n < suc v * d
    → IsScale n (units_loop v d exp w)
unfolding units_loop
units_loop-IsScale v d exp n (Acc.intro _ smaller) power some_v low high = elim (dec_lt 1023 v) [
  | yes more ↦
      let below : v / 1024 * (d * 1024) ≤ n =
        omega (arith, mul_mono (v / 1024 * 1024) v d (omega arith), mul_shift (v / 1024) d) in
      let above : n < suc (v / 1024) * (d * 1024) = omega (
        arith,
        mul_mono (suc v) (suc (v / 1024) * 1024) d (omega arith),
        mul_shift (suc (v / 1024)) d,
      ) in
      rw (dif_pos (dec_lt 1023 v) le_prop more) (
        units_loop-IsScale (v / 1024) (d * 1024) (suc exp) n (smaller (v / 1024) (kilo-lt v more))
          (kib_next d exp power) (omega arith) below above)
  | no less ↦ rw (dif_neg (dec_lt 1023 v) less) (
    power,
    omega (arith, power, mul_mono 1 v d some_v),
    omega (arith, power, mul_mono (suc v) 1024 d (omega arith)),
  )
]

first-IsScale :
    (n : ℕ) → 1024 ≤ n → IsScale n (units_loop (n / 1024) 1024 0 (lt_wf.apply (n / 1024)))
first-IsScale n large =
    units_loop-IsScale (n / 1024) 1024 0 n (lt_wf.apply (n / 1024)) (unfold kib in refl)
      (omega arith) (omega arith) (omega arith)

six_units : (e : ℕ) → kib (suc e) < 2 ^ 63 → (u : ℕ) × (unit_at e ≡ some u)
unfolding kib unit_at
six_units zero h = (b'K', refl)
six_units (suc zero) h = (b'M', refl)
six_units (suc (suc zero)) h = (b'G', refl)
six_units (suc (suc (suc zero))) h = (b'T', refl)
six_units (suc (suc (suc (suc zero)))) h = (b'P', refl)
six_units (suc (suc (suc (suc (suc zero))))) h = (b'E', refl)
six_units (suc (suc (suc (suc (suc (suc k)))))) h = absurd (omega (arith, kib_pos k))

-- An int64 of 1024 bytes and more is shown with a unit, whose index is never out of range: the unit
-- number `e` is the one for which the number lies between 1024 ^ (e + 1) and 1024 ^ (e + 2), and the
-- number is divided by the former.
pub format_bytes_lem :
    (tenths : ℕ → ℕ → Str) (n : ℕ)
    → 1024 ≤ n
    → n < 2 ^ 63
    → (e : ℕ) × (u : ℕ) × (format_bytes tenths (pos n)
        ≡ some (tenths n (kib (suc e)) ++ b' ' ∷ u ∷ codes "iB"))
      × (unit_at e ≡ some u)
      × (kib (suc e) ≤ n)
      × (n < kib (suc (suc e)))
unfolding format_bytes
format_bytes_lem tenths n large small =
    let r = units_loop (n / 1024) 1024 0 (lt_wf.apply (n / 1024)) in
    let scale : IsScale n r = first-IsScale n large in
    let (u, e) = six_units r.1 (omega (arith, scale.1)) in
    let many : ltb n 1024 ≡ false = ground arith in
    (r.1, u, rw (many, scale.0, e) refl, e, scale.1, (unfold kib in scale.2))
