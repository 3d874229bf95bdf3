-- ===== src/RouterOs.antt =====
-- internal/routeros: MikroTik's binary API. This file holds what its parts share: the results of
-- reading from the connection's buffered stream, which is the list of the bytes still to come.
pub mod Protocol
pub mod Length
pub mod Sentence
pub mod Client
pub mod Reply
pub mod Run
pub mod Attributes
pub mod Login
mod Examples
use whatunga.Prelude.{
  ℕ, ◌≡◌, refl, ◌⊎◌, inl, inr, Bool, true, false, List, [], ◌∷◌, Str, leb, length, take, drop,
  is_nil, if◌then◌else◌,
}

-- `eof` and `unexpected_eof` are io.EOF and io.ErrUnexpectedEOF; `fatal` carries the text of a
-- "!fatal" sentence, and `login_failed` that of the error that Dial returns; `closed` is the error
-- of a write on a closed connection, `not_reached` that of net.DialTimeout.
pub data Error : Type 0 where
  eof unexpected_eof closed not_reached : Error
  bad_prefix : ℕ → Error
  fatal : Str → Error
  login_failed : Str → Error

-- Go's (value, error). `stuck` is no Go value: a loop of the model ran out of fuel.
pub data Result {ℓ} (A : Type ℓ) : Type ℓ where
  ok : A → Result A
  err : Error → Result A
  stuck : Result A

-- What comes next, unless there is no value.
infixl 5 ◌>>=◌
abbrev pub ◌>>=◌ {ℓ κ} : {X : Type ℓ} {Y : Type κ} → Result X → (X → Result Y) → Result Y
stuck >>= next = stuck
err e >>= next = err e
ok value >>= next = next value

-- io.ReadFull into a buffer of `n` bytes.
unfoldable pub read_full : ℕ → Str → Result (Str × Str)
read_full n s =
    if leb n (length s)
    then ok (take n s, drop n s)
    else if is_nil s
    then err eof
    else err unexpected_eof

-- Inversion of a successful bind.
pub bind-eq-ok {ℓ κ} :
    {X : Type ℓ} {Y : Type κ} (first : Result X) (next : X → Result Y) {y : Y}
    → (first >>= next) ≡ ok y
    → (x : X) × (first ≡ ok x) × (next x ≡ ok y)
bind-eq-ok stuck next e = cc
bind-eq-ok (err _) next e = cc
bind-eq-ok (ok x) next e = (x, refl, e)

pub Result-cases {ℓ} :
    {A : Type ℓ} (r : Result A) → ((a : A) × (r ≡ ok a)) ⊎ ((e : Error) × (r ≡ err e)) ⊎ (r ≡ stuck)
Result-cases (ok a) = inl (a, refl)
Result-cases (err e) = inr (inl (e, refl))
Result-cases stuck = inr (inr refl)
