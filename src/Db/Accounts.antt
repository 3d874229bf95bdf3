-- ===== src/Db/Accounts.antt =====
-- What holds of the accounts: who gets in, and what a change of password changes.
use whatunga.Prelude.{
  ℕ, suc, ◌≡◌, ◌≢◌, refl, true, false, Option, none, some, Str, str_eq, str_eq_iff, str_eq_refl,
  arith, inl, inr, Option-cases, ltb,
}
use whatunga.Db.{
  Query, row, no_rows, query_failed, Engine, EngineLaws, Bcrypt, Sound, Answer, fine,
  invalid_credentials, incorrect_current_password, internal_error, default_admin_username,
  default_admin_password, seed_default_admin, check_hash, authenticate, updated, store_hash,
  change_checked, change_password, seed_counted, insert_admin,
}

module _ {ℓ} {C : Type ℓ} (engine : Engine C) (bcrypt : Bcrypt) where
  authenticate-fine :
      (username password : Str) (c : C)
      → authenticate engine bcrypt username password c ≡ fine
      → (hash : Str) × (engine.select_hash username c ≡ row hash)
        × (bcrypt.matches hash password ≡ true)
  unfolding authenticate check_hash
  authenticate-fine username password c e = by_row (engine.select_hash username c) refl e
    where
      by_row :
          (q : Query Str)
          → engine.select_hash username c ≡ q
          → check_hash engine bcrypt password q ≡ fine
          → (hash : Str) × (engine.select_hash username c ≡ row hash)
            × (bcrypt.matches hash password ≡ true)
      by_row (row hash) found h = (hash, found, ground arith)
      by_row no_rows found h = cc
      by_row query_failed found h = cc

  updated-fine :
      (c : C) (r : Option C)
      → (updated engine bcrypt c r).1 ≡ fine
      → r ≡ some (updated engine bcrypt c r).0
  unfolding updated
  updated-fine c none e = cc
  updated-fine c (some c') e = refl

  store_hash-fine :
      (username : Str) (c : C) (h : Option Str)
      → (store_hash engine bcrypt username c h).1 ≡ fine
      → (hash : Str) × (h ≡ some hash)
        × (engine.update_hash username hash c ≡ some (store_hash engine bcrypt username c h).0)
  unfolding store_hash
  store_hash-fine username c none e = cc
  store_hash-fine username c (some hash) e =
      (hash, refl, updated-fine c (engine.update_hash username hash c) e)

  change_checked-fine :
      (salt username new_password : Str) (c : C) (a : Answer)
      → (change_checked engine bcrypt salt username new_password c a).1 ≡ fine
      → (hash : Str) × (a ≡ fine)
        × (bcrypt.generate salt new_password ≡ some hash)
        × (engine.update_hash username hash c
            ≡ some (change_checked engine bcrypt salt username new_password c a).0)
  unfolding change_checked
  change_checked-fine salt username new_password c fine e =
      let (hash, made, stored) = store_hash-fine username c (bcrypt.generate salt new_password) e in
      (hash, refl, made, stored)
  change_checked-fine salt username new_password c invalid_credentials e = cc
  change_checked-fine salt username new_password c incorrect_current_password e = cc
  change_checked-fine salt username new_password c internal_error e = cc

  -- Over an engine that keeps its laws and a bcrypt whose hashes match their passwords, a change
  -- of password that succeeds has checked the current password; from then on the new one gets the
  -- user in, and for every other user each password does what it did before.
  pub change_password-fine :
      (salt username current_password new_password : Str) (c : C)
      → EngineLaws engine
      → Sound bcrypt
      → (change_password engine bcrypt salt username current_password new_password c).1 ≡ fine
      → let c' = (change_password engine bcrypt salt username current_password new_password c).0 in
        (authenticate engine bcrypt username current_password c ≡ fine)
        × (authenticate engine bcrypt username new_password c' ≡ fine)
        × ((v password : Str)
            → username ≢ v
            → authenticate engine bcrypt v password c' ≡ authenticate engine bcrypt v password c)
  unfolding change_password authenticate check_hash
  change_password-fine salt username current_password new_password c laws sound e =
      let (hash, checked, made, stored) =
        change_checked-fine salt username new_password c
          (authenticate engine bcrypt username current_password c) e in
      let (old, found, _) = authenticate-fine username current_password c checked in
      let after = laws.select-update username hash old c _ stored found in
      (
        checked,
        rw (after username, str_eq_refl username, sound salt new_password hash made) refl,
        λ v password other.
            let differ : str_eq username v ≡ false = ground (arith, str_eq_iff username v) in
            rw (after v, differ) refl,
      )

  updated-ne-fine :
      (c : C) (r : Option C)
      → (updated engine bcrypt c r).1 ≢ fine
      → (updated engine bcrypt c r).0 ≡ c
  unfolding updated
  updated-ne-fine c none e = refl
  updated-ne-fine c (some c') e = absurd (e refl)

  store_hash-ne-fine :
      (username : Str) (c : C) (h : Option Str)
      → (store_hash engine bcrypt username c h).1 ≢ fine
      → (store_hash engine bcrypt username c h).0 ≡ c
  unfolding store_hash
  store_hash-ne-fine username c none e = refl
  store_hash-ne-fine username c (some hash) e = updated-ne-fine c _ e

  change_checked-ne-fine :
      (salt username new_password : Str) (c : C) (a : Answer)
      → (change_checked engine bcrypt salt username new_password c a).1 ≢ fine
      → (change_checked engine bcrypt salt username new_password c a).0 ≡ c
  unfolding change_checked
  change_checked-ne-fine salt username new_password c fine e = store_hash-ne-fine username c _ e
  change_checked-ne-fine salt username new_password c invalid_credentials e = refl
  change_checked-ne-fine salt username new_password c incorrect_current_password e = refl
  change_checked-ne-fine salt username new_password c internal_error e = refl

  -- A change of password that fails, for whatever reason, leaves the database as it was; where the
  -- current password does not get the user in, it fails with the error that says so.
  pub change_password-ne-fine :
      (salt username current_password new_password : Str) (c : C)
      → let (c', answer) =
          change_password engine bcrypt salt username current_password new_password c in
        (answer ≢ fine → c' ≡ c)
        × (authenticate engine bcrypt username current_password c ≡ invalid_credentials
            → answer ≡ incorrect_current_password)
  unfolding change_password
  change_password-ne-fine salt username current_password new_password c = (
    change_checked-ne-fine salt username new_password c _,
    λ wrong. unfold change_checked in rw wrong refl,
  )

  -- Over an engine that keeps its laws and a bcrypt whose hashes match their passwords, opening a
  -- database without users, where it succeeds, lets the default admin in with the default
  -- password; one that has users is left as it is.
  pub seed_default_admin-authenticate :
      (salt : Str) (c c' : C)
      → EngineLaws engine
      → Sound bcrypt
      → seed_default_admin engine bcrypt salt c ≡ some c'
      → ((engine.count_users c ≡ some 0)
          → authenticate engine bcrypt default_admin_username default_admin_password c' ≡ fine)
        × ((n : ℕ) → engine.count_users c ≡ some (suc n) → c' ≡ c)
  unfolding seed_default_admin seed_counted insert_admin authenticate check_hash
  seed_default_admin-authenticate salt c c' laws sound e = (
    λ empty. elim (Option-cases (bcrypt.generate salt default_admin_password)) [
      | inl failed ↦ absurd (let q = rw (empty, failed) at e in cc)
      | inr (hash, made) ↦
          let stored = rw (empty, made) at e in
          rw
            (
              laws.select-insert default_admin_username hash c c' stored,
              sound salt default_admin_password hash made,
            )
            refl
    ],
    λ n some_users.
        let many : ltb 0 (suc n) ≡ true = ground arith in
        let q : some c ≡ some c' = rw (some_users, many) at e in cc,
  )

  -- The password changes only with the current one.
  pub change_password-checked :
      (salt username current_password new_password : Str) (c : C)
      → (change_password engine bcrypt salt username current_password new_password c).0 ≢ c
      → authenticate engine bcrypt username current_password c ≡ fine
  unfolding change_password
  change_password-checked salt username current_password new_password c changed =
      by_answer (authenticate engine bcrypt username current_password c) changed
    where
      by_answer :
          (a : Answer)
          → (change_checked engine bcrypt salt username new_password c a).0 ≢ c
          → a ≡ fine
      by_answer fine h = refl
      by_answer invalid_credentials h = absurd (h (unfold change_checked in refl))
      by_answer incorrect_current_password h = absurd (h (unfold change_checked in refl))
      by_answer internal_error h = absurd (h (unfold change_checked in refl))
