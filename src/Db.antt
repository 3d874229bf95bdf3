-- ===== src/Db.antt =====
-- internal/db/db.go: the admin's account and the settings, over an SQL engine and bcrypt, which
-- are not the program's: they are parameters, and what it relies on of them is stated as laws.
pub mod Accounts
pub mod Examples
use whatunga.Prelude.{
  ℕ, ◌≡◌, ◌↔◌, Bool, true, false, Option, none, some, Str, codes, str_eq, ltb, if◌then◌else◌,
}

-- One row of a query, sql.ErrNoRows, or another error.
pub data Query {ℓ} (A : Type ℓ) : Type ℓ where
  row : A → Query A
  no_rows query_failed : Query A

-- The statements that the program sends, over the state `C` of the database; none is an error.
pub record Engine {ℓ} (C : Type ℓ) : Type ℓ where
  pub count_users : C → Option ℕ
  pub select_hash : Str → C → Query Str
  pub insert_user : Str → Str → C → Option C
  pub update_hash : Str → Str → C → Option C
  pub select_setting : Str → C → Query Str
  pub upsert_setting : Str → Str → C → Option C

-- What the statements do where they succeed.
pub record EngineLaws {ℓ} {C : Type ℓ} (engine : Engine C) : Type ℓ where
  pub select-insert :
      (user hash : Str) (c c' : C)
      → engine.insert_user user hash c ≡ some c'
      → engine.select_hash user c' ≡ row hash
  pub select-update :
      (user hash old : Str) (c c' : C)
      → engine.update_hash user hash c ≡ some c'
      → engine.select_hash user c ≡ row old
      → (v : Str)
      → engine.select_hash v c' ≡ (if str_eq user v then row hash else engine.select_hash v c)
  pub select-upsert :
      (key value : Str) (c c' : C)
      → engine.upsert_setting key value c ≡ some c'
      → (k : Str)
      → engine.select_setting k c' ≡ (if str_eq key k then row value else engine.select_setting k c)

-- golang.org/x/crypto/bcrypt; the salt that GenerateFromPassword draws is its argument here.
pub record Bcrypt : Type 0 where
  pub generate : Str → Str → Option Str
  pub matches : Str → Str → Bool

-- A generated hash matches the password that it was generated from.
abbrev pub Sound : Bcrypt → Type 0
Sound bcrypt =
    (salt password hash : Str)
    → bcrypt.generate salt password ≡ some hash
    → bcrypt.matches hash password ≡ true

-- nil, and the errors that a function of the package tells apart.
pub data Answer : Type 0 where
  fine invalid_credentials incorrect_current_password internal_error : Answer

abbrev pub default_admin_username : Str
default_admin_username = codes "admin"

abbrev pub default_admin_password : Str
default_admin_password = codes "admin"

module _ {ℓ} {C : Type ℓ} (engine : Engine C) (bcrypt : Bcrypt) where
  insert_admin : C → Option Str → Option C
  insert_admin c none = none
  insert_admin c (some hash) = engine.insert_user default_admin_username hash c

  seed_counted : Str → C → Option ℕ → Option C
  unfolding insert_admin
  seed_counted salt c none = none
  seed_counted salt c (some count) =
      if ltb 0 count then some c else insert_admin c (bcrypt.generate salt default_admin_password)

  unfoldable pub seed_default_admin : Str → C → Option C
  unfolding seed_counted
  seed_default_admin salt c = seed_counted salt c (engine.count_users c)

  check_hash : Str → Query Str → Answer
  check_hash password (row hash) =
      if bcrypt.matches hash password then fine else invalid_credentials
  check_hash password no_rows = invalid_credentials
  check_hash password query_failed = internal_error

  unfoldable pub authenticate : Str → Str → C → Answer
  unfolding check_hash
  authenticate username password c = check_hash password (engine.select_hash username c)

  updated : C → Option C → C × Answer
  updated c none = (c, internal_error)
  updated c (some c') = (c', fine)

  store_hash : Str → C → Option Str → C × Answer
  unfolding updated
  store_hash username c none = (c, internal_error)
  store_hash username c (some hash) = updated c (engine.update_hash username hash c)

  change_checked : Str → Str → Str → C → Answer → C × Answer
  unfolding store_hash
  change_checked salt username new_password c fine =
      store_hash username c (bcrypt.generate salt new_password)
  change_checked salt username new_password c invalid_credentials = (c, incorrect_current_password)
  change_checked salt username new_password c incorrect_current_password =
      (c, incorrect_current_password)
  change_checked salt username new_password c internal_error = (c, internal_error)

  unfoldable pub change_password : Str → Str → Str → Str → C → C × Answer
  unfolding change_checked
  change_password salt username current_password new_password c =
      change_checked salt username new_password c (authenticate username current_password c)

  value_or : Str → Query Str → Str
  value_or fallback (row value) = value
  value_or fallback no_rows = fallback
  value_or fallback query_failed = fallback

  unfoldable pub get_setting : Str → Str → C → Str
  unfolding value_or
  get_setting key fallback c = value_or fallback (engine.select_setting key c)

  unfoldable pub set_setting : Str → Str → C → C × Answer
  unfolding updated
  set_setting key value c = updated c (engine.upsert_setting key value c)
