-- ===== src/Webui/Page.antt =====
-- internal/webui/server.go: what a request brings and an answer holds, whose session it belongs to,
-- and the rows of the pages. `Env` is what a request reads of the outside: each reading of the
-- clock, the random bytes of a token and the salt of a hash.
use whatunga.Prelude.{ℕ, ◌*◌, Bool, ◌||◌, Option, none, some, List, [], ◌∷◌, Str, codes}
use whatunga.Prelude.Paths.{is_at, is_below}
use whatunga.Monitor.{Time, Kind, Snapshot}
use whatunga.Store.{History, latest}
use whatunga.Notify.{Manager, Status, status_of}
use whatunga.Webui.{Session, SessionManager, new_session_manager, lookup_session}

pub record Server {ℓ} (C : Type ℓ) : Type ℓ where
  pub db : C
  pub history : History
  pub manager : Manager
  pub sessions : SessionManager

pub record Request : Type 0 where
  -- r.URL.EscapedPath()
  pub path : Str
  pub is_post : Bool
  pub session_cookie : Option Str
  pub lang_cookie : Option Str
  pub form : Str → Str
  pub code : Str
  pub referer : Str

pub record Env : Type 0 where
  pub guard_time : Time
  pub view_time : Time
  pub user_time : Time
  pub create_time : Time
  pub random : Option Str
  pub salt : Str

pub record PublicDeviceStatus : Type 0 where
  pub device : Str
  pub kind : Kind
  pub status : Status
  pub last_change : Time

pub record ViewData : Type 0 where
  pub lang : Str
  pub languages : List Str
  pub authenticated : Bool
  pub username : Str
  pub flash : Str
  pub flash_kind : Str
  pub devices : List Snapshot
  pub status_devices : List PublicDeviceStatus

pub data Response : Type 0 where
  -- a page's template and its data
  render : Str → ViewData → Response
  redirect : Str → Response
  server_error static_file : Response
  -- of the mux, which redirects to the URL of a path
  moved : Str → Response

-- A cookie that is set, by its name and value, or dropped; its other attributes are left out.
pub data Cookie : Type 0 where
  keep_cookie : Str → Str → Cookie
  drop_cookie : Str → Cookie

abbrev pub session_cookie_name : Str
session_cookie_name = codes "whatunga_session"

abbrev pub nanoseconds_per_hour : ℕ
nanoseconds_per_hour = 3_600_000_000_000

unfoldable pub new_server {ℓ} : {C : Type ℓ} → C → History → Manager → Server C
new_server db history manager = record {
  db = db;
  history = history;
  manager = manager;
  sessions = new_session_manager (24 * nanoseconds_per_hour);
}

unfoldable pub name_of : SessionManager × Option Session → SessionManager × Option Str
name_of (m, none) = (m, none)
name_of (m, some session) = (m, some session.username)

-- A request without the cookie has no user; otherwise the token is looked up.
unfoldable pub current_user : SessionManager → Option Str → Time → SessionManager × Option Str
unfolding name_of
current_user m none now = (m, none)
current_user m (some token) now = name_of (lookup_session m token now)

unfoldable pub status_rows : History → Manager → List Str → List PublicDeviceStatus
status_rows h m [] = []
status_rows h m (name ∷ names) = with_latest (latest h name) (status_rows h m names)
  where
    with_latest : Option Snapshot → List PublicDeviceStatus → List PublicDeviceStatus
    with_latest none rows = rows
    with_latest (some snap) rows =
        record {
          device = name;
          kind = snap.kind;
          status = (status_of m name).0;
          last_change = (status_of m name).1;
        }
        ∷ rows

unfoldable pub latest_rows : History → List Str → List Snapshot
latest_rows h [] = []
latest_rows h (name ∷ names) = with_latest (latest h name) (latest_rows h names)
  where
    with_latest : Option Snapshot → List Snapshot → List Snapshot
    with_latest none rows = rows
    with_latest (some snap) rows = snap ∷ rows

-- What the mux serves without a session.
abbrev pub is_public : Str → Bool
is_public path =
    is_below (codes "static" ∷ []) path
    || is_at (codes "login" ∷ []) path
    || is_at (codes "logout" ∷ []) path
    || is_at (codes "lang" ∷ []) path
    || is_at (codes "status" ∷ []) path
