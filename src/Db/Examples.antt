-- ===== src/Db/Examples.antt =====
-- An engine on two maps and a hash that is the password itself, which meet the laws; the theorems
-- at concrete inputs.
use whatunga.Prelude.{
  ℕ, suc, ◌≡◌, ◌≢◌, refl, sym, ap, ◌∙◌, Bool, true, false, Option, none, some, [], ◌∷◌, Str, codes,
  str_eq, str_eq_iff, str_eq_refl, if◌then◌else◌, length,
}
use whatunga.Prelude.Maps.{Map, lookup, insert, lookup-insert}
use whatunga.Db.{
  Query, row, no_rows, Engine, EngineLaws, Bcrypt, Sound, Answer, fine, authenticate,
  change_password, seed_default_admin, default_admin_username, default_admin_password,
}
use whatunga.Db.Accounts.{change_password-fine, seed_default_admin-authenticate}

abbrev pub Tables : Type 0
Tables = Map Str × Map Str

abbrev pub to_query : Option Str → Query Str
to_query none = no_rows
to_query (some value) = row value

abbrev pub tables_engine : Engine Tables
tables_engine = record {
  count_users = λ c. some (length c.0);
  select_hash = λ user c. to_query (lookup user c.0);
  insert_user = λ user hash c. some (insert user hash c.0, c.1);
  update_hash = λ user hash c. some (insert user hash c.0, c.1);
  select_setting = λ key c. to_query (lookup key c.1);
  upsert_setting = λ key value c. some (c.0, insert key value c.1);
}

abbrev pub plain_bcrypt : Bcrypt
plain_bcrypt = record { generate = λ salt password. some password; matches = str_eq }

to_query-if :
    (b : Bool) (x : Str) (y : Option Str)
    → to_query (if b then some x else y) ≡ (if b then row x else to_query y)
to_query-if true x y = refl
to_query-if false x y = refl

abbrev tables_of : Option Tables → Tables
tables_of none = ([], [])
tables_of (some c) = c

to_query-insert :
    (key value : Str) (m : Map Str) (k : Str)
    → to_query (lookup k (insert key value m))
      ≡ (if str_eq key k then row value else to_query (lookup k m))
to_query-insert key value m k = ap to_query (lookup-insert key k value m) ∙ to_query-if _ value _

tables_engine-EngineLaws : EngineLaws tables_engine
tables_engine-EngineLaws = record {
  select-insert = λ user hash c c' e.
      ap (λ (o : Option Tables). to_query (lookup user (tables_of o).0)) (sym e)
      ∙ to_query-insert user hash c.0 user
      ∙ rw (str_eq_refl user) refl;
  select-update = λ user hash old c c' e found v.
      ap (λ (o : Option Tables). to_query (lookup v (tables_of o).0)) (sym e)
      ∙ to_query-insert user hash c.0 v;
  select-upsert = λ key value c c' e k.
      ap (λ (o : Option Tables). to_query (lookup k (tables_of o).1)) (sym e)
      ∙ to_query-insert key value c.1 k;
}

plain_bcrypt-Sound : Sound plain_bcrypt
plain_bcrypt-Sound salt password hash e =
    (str_eq_iff hash password).1 (let q : password ≡ hash = cc in sym q)

-- A fresh database, and the one with the default admin.
abbrev empty : Tables
empty = ([], [])

abbrev pub seeded : Tables
seeded = ((codes "admin", codes "admin") ∷ [], [])

seed_default_admin-authenticate_example :
    ((tables_engine.count_users empty ≡ some 0)
      → authenticate tables_engine plain_bcrypt default_admin_username default_admin_password seeded
        ≡ fine)
    × ((n : ℕ) → tables_engine.count_users empty ≡ some (suc n) → seeded ≡ empty)
unfolding seed_default_admin insert
seed_default_admin-authenticate_example =
    seed_default_admin-authenticate tables_engine plain_bcrypt [] empty seeded
      tables_engine-EngineLaws plain_bcrypt-Sound refl

abbrev change : Str → Tables × Answer
change current =
    change_password tables_engine plain_bcrypt [] (codes "admin") current (codes "a-new-one") seeded

changed : (change (codes "admin")).1 ≡ fine
unfolding change_password authenticate lookup str_eq
changed = refl

change_password-fine_example :
    (authenticate tables_engine plain_bcrypt (codes "admin") (codes "admin") seeded ≡ fine)
    × (authenticate tables_engine plain_bcrypt
          (codes "admin")
          (codes "a-new-one")
          (change (codes "admin")).0
        ≡ fine)
    × ((v password : Str)
        → codes "admin" ≢ v
        → authenticate tables_engine plain_bcrypt v password (change (codes "admin")).0
          ≡ authenticate tables_engine plain_bcrypt v password seeded)
change_password-fine_example =
    change_password-fine tables_engine plain_bcrypt [] (codes "admin") (codes "admin")
      (codes "a-new-one") seeded tables_engine-EngineLaws plain_bcrypt-Sound changed
