-- ===== src/Webui/Server.antt =====
-- internal/webui/server.go: the handlers and the routes.
use whatunga.Prelude.{
  Bool, true, false, not, Option, none, some, List, [], ◌∷◌, Str, codes, str_eq, length, ltb,
  if◌then◌else◌,
}
use whatunga.Prelude.Paths.{redirection, is_at, is_below}
use whatunga.Prelude.Maps.{Map}
use whatunga.Store.{devices}
use whatunga.Db.{
  Engine, Bcrypt, Answer, fine, incorrect_current_password, authenticate, change_password,
  get_setting, set_setting,
}
use whatunga.I18n.{supported_languages, is_supported, translate}
use whatunga.Webui.{SessionManager, create, destroy}
use whatunga.Webui.Page.{
  Server, Request, Env, ViewData, Response, Cookie, session_cookie_name, current_user, status_rows,
  latest_rows, render, redirect, moved, server_error, static_file, keep_cookie, drop_cookie,
}

-- The only pattern of the mux, besides "/", that ends in a slash.
abbrev pub static_tree : List (List Str)
static_tree = (codes "static" ∷ []) ∷ []

abbrev pub or_empty : Option Str → Str
or_empty none = []
or_empty (some name) = name

-- What a handler gives, unless the mux redirects.
abbrev pub unless_moved {ℓ} :
    {C : Type ℓ}
    → Option Str
    → Server C
    → Server C × List Cookie × Response
    → Server C × List Cookie × Response
unless_moved none s answer = answer
unless_moved (some target) s answer = (s, [], moved target)

module _ {ℓ} {C : Type ℓ} (engine : Engine C) (bcrypt : Bcrypt) (texts : Map (Map Str)) where
  abbrev pub Handler : Type ℓ
  Handler = Server C → Request → Env → Server C × List Cookie × Response

  cookie_or_default : C → Option Str → Str
  cookie_or_default db none = get_setting engine bcrypt (codes "language") (codes "en") db
  cookie_or_default db (some lang) =
      if is_supported lang
      then lang
      else get_setting engine bcrypt (codes "language") (codes "en") db

  unfoldable pub current_language : C → Request → Str
  unfolding cookie_or_default
  current_language db r = cookie_or_default db r.lang_cookie

  abbrev pub is_user : Option Str → Bool
  is_user none = false
  is_user (some name) = true

  unfoldable pub base_view_data : Server C → Request → Env → Server C × ViewData
  base_view_data s r e =
      let (sessions, user) = current_user s.sessions r.session_cookie e.view_time in
      (
        record s { sessions = sessions },
        record {
          lang = current_language s.db r;
          languages = supported_languages;
          authenticated = is_user user;
          username = or_empty user;
          flash = [];
          flash_kind = [];
          devices = [];
          status_devices = [];
        },
      )

  abbrev pub with_flash : ViewData → Str → Str → ViewData
  with_flash v kind key = record v { flash = translate texts v.lang key; flash_kind = kind }

  unfoldable pub guarded :
      Handler → Server C → Request → Env → Option Str → Server C × List Cookie × Response
  guarded next s r e none = (s, [], redirect (codes "/login"))
  guarded next s r e (some user) = next s r e

  unfoldable pub require_auth : Handler → Handler
  unfolding guarded
  require_auth next s r e =
      let (sessions, user) = current_user s.sessions r.session_cookie e.guard_time in
      guarded next (record s { sessions = sessions }) r e user

  unfoldable pub finish_login :
      Server C → SessionManager × Option Str → Server C × List Cookie × Response
  finish_login s (sessions, none) = (record s { sessions = sessions }, [], server_error)
  finish_login s (sessions, some token) = (
    record s { sessions = sessions },
    keep_cookie session_cookie_name token ∷ [],
    redirect (codes "/"),
  )

  -- The answer of `Authenticate`: nil, or any error.
  unfoldable pub log_in :
      Server C → ViewData → Request → Env → Answer → Server C × List Cookie × Response
  unfolding finish_login
  log_in s v r e fine =
      finish_login s (create s.sessions (r.form (codes "username")) e.random e.create_time)
  log_in s v r e _ = (
    s,
    [],
    render (codes "login.html") (with_flash v (codes "error") (codes "invalid_credentials")),
  )

  unfoldable pub login_page :
      Server C → Request → Env → Option Str → Server C × List Cookie × Response
  unfolding log_in
  login_page s r e (some user) = (s, [], redirect (codes "/"))
  login_page s r e none =
      let (s', v) = base_view_data s r e in
      if r.is_post
      then log_in s' v r e
          (authenticate engine bcrypt (r.form (codes "username")) (r.form (codes "password")) s'.db)
      else (s', [], render (codes "login.html") v)

  unfoldable pub handle_login : Handler
  unfolding login_page
  handle_login s r e =
      let (sessions, user) = current_user s.sessions r.session_cookie e.guard_time in
      login_page (record s { sessions = sessions }) r e user

  unfoldable pub destroy_cookie : SessionManager → Option Str → SessionManager
  destroy_cookie m none = m
  destroy_cookie m (some token) = destroy m token

  unfoldable pub handle_logout : Handler
  unfolding destroy_cookie
  handle_logout s r e = (
    record s { sessions = destroy_cookie s.sessions r.session_cookie },
    drop_cookie session_cookie_name ∷ [],
    redirect (codes "/login"),
  )

  unfoldable pub handle_set_language : Handler
  handle_set_language s r e =
      let known = is_supported r.code in
      (
        record s {
          db = if known then (set_setting engine bcrypt (codes "language") r.code s.db).0 else s.db;
        },
        if known then keep_cookie (codes "lang") r.code ∷ [] else [],
        redirect (if str_eq r.referer [] then codes "/" else r.referer),
      )

  unfoldable pub handle_dashboard : Handler
  handle_dashboard s r e =
      let (s', v) = base_view_data s r e in
      let rows = latest_rows s'.history (devices s'.history) in
      (s', [], render (codes "dashboard.html") (record v { devices = rows }))

  unfoldable pub handle_public_status : Handler
  handle_public_status s r e =
      let (s', v) = base_view_data s r e in
      let rows = status_rows s'.history s'.manager (devices s'.history) in
      (s', [], render (codes "status.html") (record v { status_devices = rows }))

  -- The flash for an answer of ChangePassword; an internal error's own text is `server`.
  unfoldable pub password_flash : ViewData → Str → Answer → ViewData
  password_flash v server fine = with_flash v (codes "success") (codes "password_updated")
  password_flash v server incorrect_current_password =
      with_flash v (codes "error") (codes "incorrect_current_password")
  password_flash v server _ = record v { flash = server; flash_kind = codes "error" }

  unfoldable pub post_account :
      Server C → ViewData → Request → Env → Str → Str → Server C × ViewData
  post_account s v r e user server =
      let new_pass = r.form (codes "new_password") in
      let (db, answer) =
        change_password engine bcrypt e.salt user (r.form (codes "current_password")) new_pass
          s.db in
      if ltb (length new_pass) 8
      then (s, with_flash v (codes "error") (codes "password_too_short"))
      else if not (str_eq new_pass (r.form (codes "confirm_password")))
      then (s, with_flash v (codes "error") (codes "password_mismatch"))
      else (record s { db = db }, password_flash v server answer)

  -- `server` is the text of an error that is not of the package.
  unfoldable pub handle_account : Str → Handler
  handle_account server s r e =
      let (s', v) = base_view_data s r e in
      let (sessions, user) = current_user s'.sessions r.session_cookie e.user_time in
      let named = record s' { sessions = sessions } in
      let (s'', w) =
        if r.is_post then post_account named v r e (or_empty user) server else (named, v) in
      (s'', [], render (codes "account.html") w)

  -- The mux: the pattern "/" takes every path that no other pattern takes.
  unfoldable pub serve : Str → Handler
  serve server s r e = unless_moved (redirection static_tree r.path) s (
      if is_below (codes "static" ∷ []) r.path
      then (s, [], static_file)
      else if is_at (codes "login" ∷ []) r.path
      then handle_login s r e
      else if is_at (codes "logout" ∷ []) r.path
      then handle_logout s r e
      else if is_at (codes "lang" ∷ []) r.path
      then handle_set_language s r e
      else if is_at (codes "status" ∷ []) r.path
      then handle_public_status s r e
      else if is_at (codes "account" ∷ []) r.path
      then require_auth (handle_account server) s r e
      else require_auth handle_dashboard s r e)
