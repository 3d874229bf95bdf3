-- ===== src/Webui/Examples.antt =====
-- The panel at concrete requests, and the theorems at concrete inputs.
use whatunga.Prelude.{
  ◌≡◌, ◌≢◌, ◌≤◌, refl, true, false, Option, none, some, List, [], ◌∷◌, Str, codes, str_eq,
  if◌then◌else◌, arith,
}
use whatunga.Prelude.{ℕ, suc, ◌/◌, ◌<◌, ◌++◌}
use whatunga.Prelude.Int.{pos}
use whatunga.Prelude.Decimal.{format_uint}
use whatunga.Webui.Labels.{format_bytes, kib, unit_at, format_bytes_lem}
use whatunga.Prelude.Split.{split, join}
use whatunga.Prelude.Paths.{
  redirection, is_at, is_below, decoded, parts_of, parts_eq, parts_below, unescape, clean_path,
  clean_parts, clean_part, rooted,
}
use whatunga.Prelude.Maps.{lookup, insert}
use whatunga.Db.{fine, authenticate, change_password}
use whatunga.Db.Examples.{Tables, seeded, tables_engine, plain_bcrypt}
use whatunga.Webui.{hex, lookup_session, check_expiry}
use whatunga.Webui.Sessions.{
  Step, signs_in, looks_up, signs_out, state_after, owner, live, lookup_session-state_after,
}
use whatunga.Webui.Page.{
  Server, Request, Env, redirect, keep_cookie, session_cookie_name, name_of, current_user,
}
use whatunga.Webui.Server.{
  static_tree, unless_moved, or_empty, require_auth, guarded, handle_account, base_view_data,
  handle_login, post_account, serve,
}
use whatunga.Webui.Access.{serve-none, handle_login-fine}
use whatunga.Webui.Account.{require_auth-handle_account_changes}

abbrev server : Server Tables
server = record {
  db = seeded;
  history = record { capacity = 3; by_device = [] };
  manager = record { threshold = 3; notifiers = []; states = [] };
  sessions = record { sessions = []; ttl = 1000 };
}

abbrev admin_form : Str → Str
admin_form field = codes "admin"

abbrev get_request : Str → Option Str → Request
get_request path cookie = record {
  path = path;
  is_post = false;
  session_cookie = cookie;
  lang_cookie = none;
  form = admin_form;
  code = [];
  referer = [];
}

abbrev login_request : Request
login_request = record {
  path = codes "/login";
  is_post = true;
  session_cookie = none;
  lang_cookie = none;
  form = admin_form;
  code = [];
  referer = [];
}

abbrev env : Env
env = record {
  guard_time = 50;
  view_time = 51;
  user_time = 52;
  create_time = 53;
  random = some (0xab ∷ 0x01 ∷ []);
  salt = [];
}

token : hex (0xab ∷ 0x01 ∷ []) ≡ codes "ab01"
unfolding hex
token = refl

serve-none_example :
    serve tables_engine plain_bcrypt [] [] server (get_request (codes "/account") none) env
    ≡ unless_moved
        (redirection static_tree (codes "/account"))
        server
        (server, [], redirect (codes "/login"))
unfolding current_user str_eq is_at is_below parts_of split parts_eq parts_below unescape
serve-none_example =
    serve-none tables_engine plain_bcrypt [] [] server (get_request (codes "/account") none) env
      refl refl

not_moved : redirection static_tree (codes "/account") ≡ none
unfolding redirection is_at parts_of parts_eq split unescape clean_path clean_parts clean_part
    rooted join str_eq
not_moved = refl

moved_to_tree : redirection static_tree (codes "/static") ≡ some (codes "/static/")
unfolding redirection is_at decoded parts_of parts_eq split unescape clean_path clean_parts
    clean_part rooted join str_eq
moved_to_tree = refl

moved_to_clean : redirection static_tree (codes "//a/../account") ≡ some (codes "/account")
unfolding redirection is_at parts_of parts_eq split unescape clean_path clean_parts clean_part
    rooted join str_eq
moved_to_clean = refl

signed_in : authenticate tables_engine plain_bcrypt (codes "admin") (codes "admin") seeded ≡ fine
unfolding authenticate lookup str_eq
signed_in = refl

handle_login-fine_example :
    let (s', cookies, response) =
      handle_login tables_engine plain_bcrypt [] server login_request env in
    (cookies ≡ keep_cookie session_cookie_name (hex (0xab ∷ 0x01 ∷ [])) ∷ [])
    × (response ≡ redirect (codes "/"))
    × ((current_user s'.sessions (some (hex (0xab ∷ 0x01 ∷ []))) 900).1 ≡ some (codes "admin"))
handle_login-fine_example =
    handle_login-fine tables_engine plain_bcrypt [] server login_request env (0xab ∷ 0x01 ∷ []) 900
      refl refl refl signed_in (omega arith)

abbrev password_form : Str → Str
password_form field =
    if str_eq field (codes "current_password") then codes "admin" else codes "long-enough"

abbrev password_request : Request
password_request = record {
  path = codes "/account";
  is_post = true;
  session_cookie = some (codes "ab01");
  lang_cookie = none;
  form = password_form;
  code = [];
  referer = [];
}

abbrev signed_in_server : Server Tables
signed_in_server = record server {
  sessions = record {
    sessions = (codes "ab01", record { username = codes "admin"; expires = 100 }) ∷ [];
    ttl = 1000;
  };
}

new_password_stored :
    (require_auth tables_engine plain_bcrypt []
      (handle_account tables_engine plain_bcrypt [] [])
      signed_in_server
      password_request
      env).0.db
    ≢ seeded
unfolding require_auth guarded handle_account base_view_data current_user name_of lookup_session
    check_expiry post_account change_password authenticate lookup insert str_eq
new_password_stored = λ e. cc

require_auth-handle_account_changes_example :
    ((current_user signed_in_server.sessions (some (codes "ab01")) 50).1 ≢ none)
    × (true ≡ true)
    × (8 ≤ 11)
    × (codes "long-enough" ≡ codes "long-enough")
    × (authenticate tables_engine plain_bcrypt
          (or_empty (current_user signed_in_server.sessions (some (codes "ab01")) 52).1)
          (codes "admin")
          seeded
        ≡ fine)
unfolding str_eq
require_auth-handle_account_changes_example =
    require_auth-handle_account_changes tables_engine plain_bcrypt [] signed_in_server
      password_request env [] (omega arith, omega arith) new_password_stored

still_admin :
    (current_user signed_in_server.sessions (some (codes "ab01")) 52).1 ≡ some (codes "admin")
unfolding current_user name_of lookup_session check_expiry lookup str_eq
still_admin = refl

abbrev steps : List Step
steps =
    record { action = looks_up (codes "ab01"); time = 30 }
    ∷ record { action = signs_in (codes "admin") (0xab ∷ 0x01 ∷ []); time = 20 }
    ∷ record { action = signs_out (codes "ab01"); time = 10 }
    ∷ []

lookup_session-state_after_example :
    (lookup_session (state_after 100 steps) (codes "ab01") 120).1
    ≡ live 120 (owner 100 steps (codes "ab01"))
lookup_session-state_after_example =
    lookup_session-state_after 100 steps (codes "ab01") 120
      (omega arith, (omega arith, (omega arith, tt)))

still_live :
    live 120 (owner 100 steps (codes "ab01"))
    ≡ some (record { username = codes "admin"; expires = 120 })
unfolding live hex str_eq
still_live = refl

gone : live 121 (owner 100 steps (codes "ab01")) ≡ none
unfolding live hex str_eq
gone = refl

abbrev shown : ℕ → ℕ → Str
shown n div = format_uint (n / div)

format_bytes_lem_example :
    (e : ℕ) × (u : ℕ) × (format_bytes shown (pos 5000000)
      ≡ some (shown 5000000 (kib (suc e)) ++ b' ' ∷ u ∷ codes "iB"))
    × (unit_at e ≡ some u)
    × (kib (suc e) ≤ 5000000)
    × (5000000 < kib (suc (suc e)))
format_bytes_lem_example = format_bytes_lem shown 5000000 (omega arith) (omega arith)
