-- ===== src/Webui/Account.antt =====
-- Whose password the page of the account changes, and when: handleAccount of
-- internal/webui/server.go.
use whatunga.Prelude.{
  ◌≤◌, ◌≡◌, ◌≢◌, refl, sym, subst, ◌∙◌, Bool, true, false, Option, none, Str, codes, str_eq,
  str_eq_iff, length, ltb, arith, inl, inr, if◌then◌else◌, Bool-cases, Option-cases,
}
use whatunga.Prelude.Maps.{Map}
use whatunga.Db.{Engine, Bcrypt, fine, authenticate}
use whatunga.Db.Accounts.{change_password-checked}
use whatunga.Webui.Page.{Server, Request, Env, ViewData, current_user}
use whatunga.Webui.Server.{
  require_auth, guarded, base_view_data, handle_account, post_account, or_empty,
}
use whatunga.Webui.Access.{current_user-later}

module _ {ℓ} {C : Type ℓ} (engine : Engine C) (bcrypt : Bcrypt) (texts : Map (Map Str)) where
  post_account_changes :
      (s : Server C) (v : ViewData) (r : Request) (e : Env) (user server : Str)
      → (post_account engine bcrypt texts s v r e user server).0.db ≢ s.db
      → (8 ≤ length (r.form (codes "new_password")))
        × (r.form (codes "new_password") ≡ r.form (codes "confirm_password"))
        × (authenticate engine bcrypt user (r.form (codes "current_password")) s.db ≡ fine)
  unfolding post_account
  post_account_changes s v r e user server changed =
      elim (Bool-cases (ltb (length (r.form (codes "new_password"))) 8)) [
        | inl short ↦ absurd (changed (rw short refl))
        | inr long ↦
            elim (Bool-cases
              (str_eq (r.form (codes "new_password")) (r.form (codes "confirm_password")))) [
                | inl same ↦ (
                  ground arith,
                  (str_eq_iff _ _).0 same,
                  change_password-checked engine bcrypt e.salt user
                      (r.form (codes "current_password")) (r.form (codes "new_password")) s.db
                      (rw (long, same) at changed),
                )
                | inr differ ↦ absurd (changed (rw (long, differ) refl))
              ]
      ]

  chosen : (b : Bool) (p q : Server C × ViewData) → b ≡ true → (if b then p else q).0.db ≡ p.0.db
  chosen b p q h = rw h refl

  unchosen : (b : Bool) (p q : Server C × ViewData) → b ≡ false → (if b then p else q).0.db ≡ q.0.db
  unchosen b p q h = rw h refl

  handle_account_changes :
      (s : Server C) (r : Request) (e : Env) (server : Str)
      → e.view_time ≤ e.user_time
      → (handle_account engine bcrypt texts server s r e).0.db ≢ s.db
      → (r.is_post ≡ true)
        × (8 ≤ length (r.form (codes "new_password")))
        × (r.form (codes "new_password") ≡ r.form (codes "confirm_password"))
        × (authenticate engine bcrypt
              (or_empty (current_user s.sessions r.session_cookie e.user_time).1)
              (r.form (codes "current_password"))
              s.db
            ≡ fine)
  unfolding handle_account base_view_data
  handle_account_changes s r e server le changed = elim (Bool-cases r.is_post) [
    | inl post ↦
        let viewed = base_view_data engine bcrypt texts s r e in
        let (sessions, user) = current_user viewed.0.sessions r.session_cookie e.user_time in
        let same : user ≡ (current_user s.sessions r.session_cookie e.user_time).1 =
          current_user-later s.sessions r.session_cookie e.view_time e.user_time le in
        let (long, confirmed, known) =
          post_account_changes (record viewed.0 { sessions = sessions }) viewed.1 r e
            (or_empty user) server (λ q. changed (chosen r.is_post _ _ post ∙ q)) in
        (
          post,
          long,
          confirmed,
          subst
              (λ (u : Option Str).
                authenticate engine bcrypt (or_empty u) (r.form (codes "current_password")) s.db
                ≡ fine)
              same known,
        )
    | inr get ↦ absurd (changed (unchosen r.is_post _ _ get))
  ]

  -- The page of the account changes the database only for a post by someone who is signed in when
  -- the request is let through, with a new password of at least eight bytes that is confirmed, and
  -- only with the current password of the user of the request's session, whose name is read when
  -- the password is changed: it is empty where the session has expired since. The three readings of
  -- the clock do not run backwards.
  pub require_auth-handle_account_changes :
      (s : Server C) (r : Request) (e : Env) (server : Str)
      → (e.guard_time ≤ e.view_time) × (e.view_time ≤ e.user_time)
      → (require_auth engine bcrypt texts (handle_account engine bcrypt texts server) s r e).0.db
        ≢ s.db
      → ((current_user s.sessions r.session_cookie e.guard_time).1 ≢ none)
        × (r.is_post ≡ true)
        × (8 ≤ length (r.form (codes "new_password")))
        × (r.form (codes "new_password") ≡ r.form (codes "confirm_password"))
        × (authenticate engine bcrypt
              (or_empty (current_user s.sessions r.session_cookie e.user_time).1)
              (r.form (codes "current_password"))
              s.db
            ≡ fine)
  unfolding require_auth guarded
  require_auth-handle_account_changes s r e server (le, le') changed =
      let let_in = current_user s.sessions r.session_cookie e.guard_time in
      elim (Option-cases let_in.1) [
        | inl nobody ↦ absurd (changed (rw nobody refl))
        | inr (user, found) ↦
            let (post, long, confirmed, known) =
              handle_account_changes (record s { sessions = let_in.0 }) r e server le'
                (λ q. changed (rw found q)) in
            (
              (λ nobody. absurd (let q = sym found ∙ nobody in cc)),
              post,
              long,
              confirmed,
              subst
                  (λ (u : Option Str).
                    authenticate engine bcrypt (or_empty u) (r.form (codes "current_password")) s.db
                    ≡ fine)
                  (current_user-later s.sessions r.session_cookie e.guard_time e.user_time
                    (omega arith))
                  known,
            )
      ]
