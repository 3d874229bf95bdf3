-- ===== src/Prelude/Options.antt =====
-- Chains of Option results.
use whatunga.Prelude.{Option, none, some}

-- What comes next, unless there is no value.
infixl 5 ◌>>=◌
abbrev pub ◌>>=◌ {ℓ κ} : {X : Type ℓ} {Y : Type κ} → Option X → (X → Option Y) → Option Y
none >>= next = none
some value >>= next = next value
