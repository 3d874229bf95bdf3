-- ===== src/Webui/Access.antt =====
-- Who gets to see and change what through the admin panel.
use whatunga.Prelude.{
  ◌+◌, ◌≤◌, ◌≡◌, refl, sym, ap, ◌∙◌, Bool, true, false, ◌&&◌, ◌||◌, Option, none, some, List, [],
  ◌∷◌, map, Str, codes, str_eq, str_eq_iff, str_eq_refl, ltb, arith, inl, inr, Bool-cases,
  Option-cases, is_some,
}
use whatunga.Prelude.Maps.{Map, lookup, lookup-insert, lookup-delete, contains}
use whatunga.Prelude.Paths.{redirection, is_at, is_below}
use whatunga.Monitor.{Time}
use whatunga.Store.{History, latest}
use whatunga.Notify.{Manager}
use whatunga.Db.{Engine, Bcrypt, fine, authenticate}
use whatunga.Webui.{
  Session, SessionManager, create, put_session, random_token, hex, lookup_session, destroy,
}
use whatunga.Webui.Sessions.{live, lookup_session-live, live-lookup_session}
use whatunga.Webui.Page.{
  Server, Request, Env, Response, redirect, Cookie, keep_cookie, session_cookie_name,
  PublicDeviceStatus, current_user, name_of, status_rows, is_public,
}
use whatunga.Webui.Server.{
  require_auth, guarded, base_view_data, handle_login, login_page, log_in, finish_login,
  handle_logout, destroy_cookie, handle_dashboard, handle_account, serve, static_tree, unless_moved,
}

abbrev user_of : Option Session → Option Str
user_of none = none
user_of (some session) = some session.username

current_user-live :
    (m : SessionManager) (token : Str) (now : Time)
    → (current_user m (some token) now).1 ≡ user_of (live now (lookup token m.sessions))
unfolding current_user
current_user-live m token now =
    named (lookup_session m token now) ∙ ap user_of (lookup_session-live m token now)
  where
    named : (found : SessionManager × Option Session) → (name_of found).1 ≡ user_of found.1
    named (m', none) = unfold name_of in refl
    named (m', some session) = unfold name_of in refl

-- Looking the cookie's session up does not change who it stands for from then on.
pub current_user-later :
    (m : SessionManager) (cookie : Option Str) (at now : Time)
    → at ≤ now
    → (current_user (current_user m cookie at).0 cookie now).1 ≡ (current_user m cookie now).1
unfolding current_user
current_user-later m none at now le = refl
current_user-later m (some token) at now le =
    ap (λ (m' : SessionManager). (current_user m' (some token) now).1)
      (kept (lookup_session m token at))
    ∙ current_user-live (lookup_session m token at).0 token now
    ∙ ap user_of (live-lookup_session m token token at now le)
    ∙ sym (current_user-live m token now)
  where
    kept : (found : SessionManager × Option Session) → (name_of found).0 ≡ found.0
    kept (m', none) = unfold name_of in refl
    kept (m', some session) = unfold name_of in refl

or-false : (a b : Bool) → (a || b) ≡ false → (a ≡ false) × (b ≡ false)
or-false a b h = (ground arith, ground arith)

module _ {ℓ} {C : Type ℓ} (engine : Engine C) (bcrypt : Bcrypt) (texts : Map (Map Str)) where
  require_auth-none :
      (next : Server C → Request → Env → Server C × List Cookie × Response) (s : Server C)
      (r : Request) (e : Env)
      → (current_user s.sessions r.session_cookie e.guard_time).1 ≡ none
      → require_auth engine bcrypt texts next s r e ≡ (
        record s { sessions = (current_user s.sessions r.session_cookie e.guard_time).0 },
        [],
        redirect (codes "/login"),
      )
  unfolding require_auth guarded
  require_auth-none next s r e h = rw h refl

  -- A request whose path is not that of a public page, without the cookie of a session that is
  -- live, gets no page and no cookie. Where the mux redirects the path, because it is not clean or
  -- is `/static`, the answer is that redirection and nothing changes; else it is the redirection to
  -- the login page, and nothing changes but that the cookie's session goes where it has expired.
  pub serve-none :
      (server : Str) (s : Server C) (r : Request) (e : Env)
      → is_public r.path ≡ false
      → (current_user s.sessions r.session_cookie e.guard_time).1 ≡ none
      → serve engine bcrypt texts server s r e
        ≡ unless_moved (redirection static_tree r.path) s (
          record s { sessions = (current_user s.sessions r.session_cookie e.guard_time).0 },
          [],
          redirect (codes "/login"),
        )
  unfolding serve
  serve-none server s r e private h =
      let account = require_auth-none (handle_account engine bcrypt texts server) s r e h in
      let dashboard = require_auth-none (handle_dashboard engine bcrypt texts) s r e h in
      let (rest3, not_status) = or-false _ (is_at (codes "status" ∷ []) r.path) private in
      let (rest2, not_lang) = or-false _ (is_at (codes "lang" ∷ []) r.path) rest3 in
      let (rest1, not_logout) = or-false _ (is_at (codes "logout" ∷ []) r.path) rest2 in
      let (not_static, not_login) =
        or-false (is_below (codes "static" ∷ []) r.path) (is_at (codes "login" ∷ []) r.path)
          rest1 in
      ap (unless_moved (redirection static_tree r.path) s)
        (elim (Bool-cases (is_at (codes "account" ∷ []) r.path)) [
          | inl yes_account ↦
              rw (not_static, not_login, not_logout, not_lang, not_status, yes_account) account
          | inr no_account ↦
              rw (not_static, not_login, not_logout, not_lang, not_status, no_account) dashboard
        ])

  -- A posted login without a session cookie, with a password that gets the user in and with random
  -- bytes at hand, sets the cookie to their hexadecimal digits and redirects to the dashboard; up
  -- to the end of the session's time that cookie then stands for the user.
  pub handle_login-fine :
      (s : Server C) (r : Request) (e : Env) (buffer : Str) (now : Time)
      → r.is_post ≡ true
      → r.session_cookie ≡ none
      → e.random ≡ some buffer
      → authenticate engine bcrypt (r.form (codes "username")) (r.form (codes "password")) s.db
        ≡ fine
      → now ≤ e.create_time + s.sessions.ttl
      → let (s', cookies, response) = handle_login engine bcrypt texts s r e in
        (cookies ≡ keep_cookie session_cookie_name (hex buffer) ∷ [])
        × (response ≡ redirect (codes "/"))
        × ((current_user s'.sessions (some (hex buffer)) now).1 ≡ some (r.form (codes "username")))
  unfolding handle_login login_page base_view_data current_user log_in finish_login create
      put_session random_token
  handle_login-fine s r e buffer now post no_cookie random in_ le =
      let session : Session = record {
        username = r.form (codes "username");
        expires = e.create_time + s.sessions.ttl;
      } in
      let sessions =
        (create s.sessions (r.form (codes "username")) (some buffer) e.create_time).0 in
      let fresh : ltb (e.create_time + s.sessions.ttl) now ≡ false = ground arith in
      let found : lookup (hex buffer) sessions.sessions ≡ some session =
        lookup-insert (hex buffer) (hex buffer) session s.sessions.sessions
        ∙ rw (str_eq_refl (hex buffer)) refl in
      let named : (current_user sessions (some (hex buffer)) now).1
          ≡ some (r.form (codes "username")) =
        current_user-live sessions (hex buffer) now ∙ rw found (unfold live in rw fresh refl) in
      rw (no_cookie, post, random, in_) (refl, refl, named)

  -- Signing out ends the session of the cookie at once: whoever shows it later is not signed in.
  pub handle_logout-none :
      (s : Server C) (r : Request) (e : Env) (token : Str) (now : Time)
      → r.session_cookie ≡ some token
      → (current_user (handle_logout engine bcrypt texts s r e).0.sessions (some token) now).1
        ≡ none
  unfolding handle_logout destroy_cookie destroy
  handle_logout-none s r e token now h =
      let gone = destroy s.sessions token in
      let removed : lookup token gone.sessions ≡ none =
        lookup-delete token token s.sessions.sessions ∙ rw (str_eq_refl token) refl in
      let named : (current_user gone (some token) now).1 ≡ none =
        current_user-live gone token now ∙ (unfold live in rw removed refl) in
      rw h named

-- The public status page shows a device that the history names exactly where the history has a
-- snapshot of it.
pub contains-status_rows :
    (h : History) (m : Manager) (d : Str) (names : List Str)
    → contains d (map (λ (p : PublicDeviceStatus). p.device) (status_rows h m names))
      ≡ (contains d names && is_some (latest h d))
unfolding status_rows contains
contains-status_rows h m d [] = refl
contains-status_rows h m d (name ∷ names) =
    let rest = contains-status_rows h m d names in
    let by_name : str_eq name d ≡ true → latest h name ≡ latest h d =
      λ same. ap (latest h) ((str_eq_iff name d).0 same) in
    elim (Option-cases (latest h name)) [
      | inl missing ↦ rw missing (ground (arith, by_name, rest))
      | inr (snap, found) ↦ rw found (ground (arith, by_name, rest))
    ]
