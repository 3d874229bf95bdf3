-- ===== src/Snmp.antt =====
-- internal/snmp: SNMPv2c over BER, with no library. This file holds what its parts share: the
-- results of decoding. `panic` is a Go panic, which ends the process, since nothing recovers it.
pub mod Ber
pub mod Lengths
pub mod Tlvs
pub mod Integer
pub mod Oid
pub mod Message
pub mod Walk
mod Examples
use whatunga.Prelude.Int.{ℤ}
use whatunga.Prelude.{ℕ, ◌≡◌, refl, ◌⊎◌, inl, inr}

pub data Error : Type 0 where
  truncated_length truncated_long_form truncated_tlv truncated_content : Error
  not_a_sequence not_a_get_response : ℕ → Error
  error_status : ℤ → Error
  invalid_oid exchange_failed empty_response too_many_entries : Error

pub data Result {ℓ} (A : Type ℓ) : Type ℓ where
  ok : A → Result A
  err : Error → Result A
  panic : Result A

-- What comes next, unless there is no value.
infixl 5 ◌>>=◌
abbrev pub ◌>>=◌ {ℓ κ} : {X : Type ℓ} {Y : Type κ} → Result X → (X → Result Y) → Result Y
panic >>= next = panic
err e >>= next = err e
ok value >>= next = next value

pub bind-eq-ok {ℓ κ} :
    {X : Type ℓ} {Y : Type κ} (first : Result X) (next : X → Result Y) {y : Y}
    → (first >>= next) ≡ ok y
    → (x : X) × (first ≡ ok x) × (next x ≡ ok y)
bind-eq-ok panic next e = cc
bind-eq-ok (err _) next e = cc
bind-eq-ok (ok x) next e = (x, refl, e)

pub Result-cases {ℓ} :
    {A : Type ℓ} (r : Result A) → ((a : A) × (r ≡ ok a)) ⊎ ((e : Error) × (r ≡ err e)) ⊎ (r ≡ panic)
Result-cases (ok a) = inl (a, refl)
Result-cases (err e) = inr (inl (e, refl))
Result-cases panic = inr (inr refl)
