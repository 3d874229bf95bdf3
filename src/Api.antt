-- ===== src/Api.antt =====
-- internal/api/server.go: the REST API over the history. An answer is the status and what is
-- encoded as JSON.
pub mod Routes
mod Examples
use whatunga.Prelude.{
  ℕ, Bool, true, false, ◌&&◌, Option, none, some, List, [], ◌∷◌, ◌++◌, Str, codes, str_eq,
  has_prefix, ◌==◌, if◌then◌else◌, is_nil, length, drop,
}
use whatunga.Prelude.Split.{split}
use whatunga.Prelude.Paths.{redirection, is_at, is_below, decoded}
use whatunga.Monitor.{Snapshot}
use whatunga.Store.{History, latest, all, devices}

pub data Body : Type 0 where
  health : Body
  device_list : List Str → Body
  one_snapshot : Snapshot → Body
  history_of : Str → List Snapshot → Body
  error_text : Str → Body
  -- of the mux, for a path that matches no pattern
  not_found_page : Body
  -- of the mux, which redirects to the URL of a path
  moved_to : Str → Body

pub record Answer : Type 0 where
  pub status : ℕ
  pub body : Body

abbrev pub no_data : Str → Answer
no_data device = record {
  status = 404;
  body = error_text (codes "unknown device or no data yet: " ++ device);
}

unfoldable pub latest_or_error : Str → Option Snapshot → Answer
latest_or_error device none = no_data device
latest_or_error device (some snap) = record { status = 200; body = one_snapshot snap }

unfoldable pub handle_device_latest : History → Str → Answer
unfolding latest_or_error
handle_device_latest h device = latest_or_error device (latest h device)

unfoldable pub handle_device_history : History → Str → Answer
handle_device_history h device =
    let snaps = all h device in
    if is_nil snaps then no_data device else record { status = 200; body = history_of device snaps }

-- The two ends of strings.Trim(s, "/").
unfoldable pub trim_left : Str → Str
trim_left [] = []
trim_left (c ∷ s) = let rest = trim_left s in if c == b'/' then rest else c ∷ s

unfoldable pub trim_right : Str → Str
trim_right [] = []
trim_right (c ∷ s) = let rest = trim_right s in if c == b'/' && is_nil rest then [] else c ∷ rest

abbrev pub devices_path : Str
devices_path = codes "/api/v1/devices/"

-- strings.TrimPrefix
unfoldable pub trim_prefix : Str → Str → Str
trim_prefix s prefix = if has_prefix s prefix then drop (length prefix) s else s

unfoldable pub dispatch : History → List Str → Answer
dispatch h [] = record { status = 400; body = error_text (codes "device name is required") }
dispatch h ([] ∷ parts) = record {
  status = 400;
  body = error_text (codes "device name is required");
}
dispatch h ((c ∷ name) ∷ []) = handle_device_latest h (c ∷ name)
dispatch h ((c ∷ name) ∷ part ∷ []) =
    if str_eq part (codes "history")
    then handle_device_history h (c ∷ name)
    else record { status = 404; body = error_text (codes "not found") }
dispatch h ((c ∷ name) ∷ part ∷ next ∷ parts) = record {
  status = 404;
  body = error_text (codes "not found");
}

unfoldable pub handle_device_route : History → Str → Answer
handle_device_route h path =
    dispatch h (split b'/' (trim_right (trim_left (trim_prefix path devices_path))))

-- What a handler gives, unless the mux redirects.
abbrev unless_moved : Option Str → Answer → Answer
unless_moved none answer = answer
unless_moved (some target) answer = record { status = 301; body = moved_to target }

-- The mux of `routes`, on the escaped path; the handler reads the decoded one.
unfoldable pub serve : History → Str → Answer
serve h path = unless_moved (redirection [] path) (
    if is_at (codes "healthz" ∷ []) path
    then record { status = 200; body = health }
    else if is_at (codes "api" ∷ codes "v1" ∷ codes "devices" ∷ []) path
    then record { status = 200; body = device_list (devices h) }
    else if is_below (codes "api" ∷ codes "v1" ∷ codes "devices" ∷ []) path
    then handle_device_route h (decoded path)
    else record { status = 404; body = not_found_page })
