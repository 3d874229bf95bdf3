-- ===== src/Monitor/Fields.antt =====
-- What the pollers of internal/monitor share: best-effort numbers (routeros_poller.go) and the
-- text of an uptime (winrm_poller.go).
use whatunga.Prelude.{
  ℕ, suc, ◌+◌, ◌-◌, ◌*◌, ◌/◌, ◌%◌, ◌≤◌, ◌<◌, ◌≡◌, refl, arith, Option, none, some, [], ◌∷◌, ◌++◌,
  Str, codes, ◌==◌, if◌then◌else◌,
}
use whatunga.Prelude.Int.{ℤ, pos, negsuc, IsInt64}
use whatunga.Prelude.Decimal.{format_uint}
use whatunga.Prelude.Atoi.{atoi, format_int, atoi-format_int}

abbrev pub or_number : Option ℤ → ℤ → ℤ
or_number none fallback = fallback
or_number (some n) fallback = n

-- An int is an int64 on the targets that the program is built for.
unfoldable pub atoi_or : Str → ℤ → ℤ
atoi_or s fallback = or_number (atoi s) fallback

unfoldable pub atoi64_or : Str → ℤ → ℤ
atoi64_or s fallback = or_number (atoi s) fallback

-- Go's `/` on int64 by a positive constant, which rounds towards zero.
unfoldable pub quotient : ℤ → ℕ → ℤ
quotient (pos n) k = pos (n / k)
quotient (negsuc n) k = if suc n / k == 0 then pos 0 else negsuc (suc n / k - 1)

-- The three numbers are written by `%d`.
unfoldable pub format_uptime : ℤ → Str
format_uptime (negsuc n) = []
format_uptime (pos n) =
    if n == 0
    then []
    else format_uint (n / 86400)
      ++ b'd'
        ∷ (format_uint (n % 86400 / 3600) ++ b'h' ∷ (format_uint (n % 3600 / 60) ++ codes "m"))

-- A counter that a device writes in decimal is read exactly.
pub atoi64_or-format_int : (n fallback : ℤ) → IsInt64 n → atoi64_or (format_int n) fallback ≡ n
unfolding atoi64_or
atoi64_or-format_int n fallback h = rw (atoi-format_int n h) refl

-- A positive uptime is shown in days, hours below 24 and minutes below 60, which together are the
-- uptime up to less than a minute.
pub format_uptime_lem :
    (n : ℕ)
    → 0 < n
    → (d : ℕ) × (h : ℕ) × (m : ℕ) × (format_uptime (pos n)
        ≡ format_uint d ++ b'd' ∷ (format_uint h ++ b'h' ∷ (format_uint m ++ codes "m")))
      × (h < 24)
      × (m < 60)
      × (d * 86400 + h * 3600 + m * 60 ≤ n)
      × (n < d * 86400 + h * 3600 + m * 60 + 60)
unfolding format_uptime
format_uptime_lem n some_time = (
  n / 86400,
  n % 86400 / 3600,
  n % 3600 / 60,
  ground arith,
  omega arith,
  omega arith,
  omega arith,
  omega arith,
)
