-- ===== src/Webui.antt =====
-- internal/webui: the browser's admin panel. This file is session.go, and its children are the
-- handlers of server.go.
pub mod Labels
pub mod Sessions
pub mod Page
pub mod Server
pub mod Access
pub mod Account
mod Examples
use whatunga.Prelude.{
  ℕ, ◌+◌, ◌-◌, ◌/◌, ◌%◌, Bool, true, false, Option, none, some, List, [], ◌∷◌, ◌++◌, Str, ltb,
  if◌then◌else◌,
}
use whatunga.Prelude.Maps.{Map, lookup, insert, delete}
use whatunga.Monitor.{Time}

pub record Session : Type 0 where
  pub username : Str
  pub expires : Time

pub record SessionManager : Type 0 where
  pub sessions : Map Session
  pub ttl : Time

unfoldable pub new_session_manager : Time → SessionManager
new_session_manager ttl = record { sessions = []; ttl = ttl }

abbrev pub hex_digit : ℕ → ℕ
hex_digit n = if ltb n 10 then b'0' + n else b'a' + n - 10

-- hex.EncodeToString
unfoldable pub hex : Str → Str
hex [] = []
hex (b ∷ bytes) = hex_digit (b / 16) ∷ hex_digit (b % 16) ∷ hex bytes

-- `random` is what rand.Read puts into the buffer of 32 bytes; none is its error.
unfoldable pub random_token : Option Str → Option Str
random_token none = none
random_token (some buffer) = some (hex buffer)

put_session : SessionManager → Str → Time → Option Str → SessionManager × Option Str
put_session m username now none = (m, none)
put_session m username now (some token) = (
  record m {
    sessions = insert token (record { username = username; expires = now + m.ttl }) m.sessions;
  },
  some token,
)

unfoldable pub create : SessionManager → Str → Option Str → Time → SessionManager × Option Str
unfolding put_session
create m username random now = put_session m username now (random_token random)

check_expiry : SessionManager → Str → Time → Option Session → SessionManager × Option Session
check_expiry m token now none = (m, none)
check_expiry m token now (some session) =
    if ltb session.expires now
    then (record m { sessions = delete token m.sessions }, none)
    else (m, some session)

-- The method `lookup`: an expired session is removed.
unfoldable pub lookup_session : SessionManager → Str → Time → SessionManager × Option Session
unfolding check_expiry
lookup_session m token now = check_expiry m token now (lookup token m.sessions)

unfoldable pub destroy : SessionManager → Str → SessionManager
destroy m token = record m { sessions = delete token m.sessions }
