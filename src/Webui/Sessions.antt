-- ===== src/Webui/Sessions.antt =====
-- The sessions against what has been done with them: who is signed in with which token, and when.
use whatunga.Prelude.{
  ℕ, ◌+◌, ◌/◌, ◌%◌, ◌≤◌, ◌<◌, ◌≡◌, refl, ap, ◌∙◌, Option, none, some, List, [], ◌∷◌, Str, IsBytes,
  str_eq, str_eq_iff, ltb, ltb→lt, lt→ltb, if◌then◌else◌, arith, inl, inr, Bool-cases,
}
use whatunga.Prelude.Maps.{lookup, lookup-insert, lookup-delete}
use whatunga.Monitor.{Time}
use whatunga.Webui.{
  Session, SessionManager, new_session_manager, hex_digit, hex, random_token, create, check_expiry,
  lookup_session, destroy, put_session,
}

pub data Action : Type 0 where
  -- with the bytes that were drawn
  signs_in : Str → Str → Action
  looks_up : Str → Action
  signs_out : Str → Action

pub record Step : Type 0 where
  pub action : Action
  pub time : Time

unfoldable pub act : Action → Time → SessionManager → SessionManager
act (signs_in username buffer) now m = (create m username (some buffer) now).0
act (looks_up token) now m = (lookup_session m token now).0
act (signs_out token) now m = destroy m token

-- The state after the steps, of which the latest stands first.
abbrev pub state_after : Time → List Step → SessionManager
state_after ttl [] = new_session_manager ttl
state_after ttl (s ∷ past) = act s.action s.time (state_after ttl past)

abbrev granted : Action → Time → Str → Option Session → Option Session
granted (signs_in username buffer) expires token before =
    if str_eq (hex buffer) token
    then some (record { username = username; expires = expires })
    else before
granted (looks_up other) expires token before = before
granted (signs_out other) expires token before = if str_eq other token then none else before

-- The session that the steps grant to the token's holder, if its time is not up.
abbrev pub owner : Time → List Step → Str → Option Session
owner ttl [] token = none
owner ttl (s ∷ past) token = granted s.action (s.time + ttl) token (owner ttl past token)

-- A session up to the time at which it expires.
unfoldable pub live : Time → Option Session → Option Session
live now none = none
live now (some session) = if ltb session.expires now then none else some session

-- The clock does not run backwards, and shows `now` at the end.
abbrev pub Ordered : Time → List Step → Type 0
Ordered now [] = Unit
Ordered now (s ∷ past) = (s.time ≤ now) × Ordered s.time past

ttl-act : (a : Action) (now : Time) (m : SessionManager) → (act a now m).ttl ≡ m.ttl
unfolding act create put_session random_token lookup_session destroy
ttl-act (signs_in username buffer) now m = refl
ttl-act (looks_up token) now m = by_session (lookup token m.sessions)
  where
    by_session : (found : Option Session) → (check_expiry m token now found).0.ttl ≡ m.ttl
    by_session none = unfold check_expiry in refl
    by_session (some session) = unfold check_expiry in ground arith
ttl-act (signs_out token) now m = refl

ttl-state_after : (ttl : Time) (past : List Step) → (state_after ttl past).ttl ≡ ttl
unfolding new_session_manager
ttl-state_after ttl [] = refl
ttl-state_after ttl (s ∷ past) =
    ttl-act s.action s.time (state_after ttl past) ∙ ttl-state_after ttl past

pub lookup_session-live :
    (m : SessionManager) (token : Str) (now : Time)
    → (lookup_session m token now).1 ≡ live now (lookup token m.sessions)
unfolding lookup_session
lookup_session-live m token now = by_session (lookup token m.sessions)
  where
    by_session : (found : Option Session) → (check_expiry m token now found).1 ≡ live now found
    by_session none = unfold check_expiry live in refl
    by_session (some session) = unfold check_expiry live in ground arith

-- A session whose time is up counts as none.
live_without :
    (m : SessionManager) (token other : Str) (now : Time) (session : Session)
    → lookup token m.sessions ≡ some session
    → session.expires < now
    → live now (if str_eq token other then none else lookup other m.sessions)
      ≡ live now (lookup other m.sessions)
unfolding live
live_without m token other now session e up = elim (Bool-cases (str_eq token other)) [
  | inl same ↦
      let found : lookup other m.sessions ≡ some session =
        rw ((str_eq_iff token other).0 same) at e in
      rw (same, found, lt→ltb session.expires now up) refl
  | inr differ ↦ rw differ refl
]

-- Looking up removes no session that is live from then on.
pub live-lookup_session :
    (m : SessionManager) (token other : Str) (at now : Time)
    → at ≤ now
    → live now (lookup other (lookup_session m token at).0.sessions)
      ≡ live now (lookup other m.sessions)
unfolding lookup_session
live-lookup_session m token other at now le = by_session (lookup token m.sessions) refl
  where
    by_session :
        (found : Option Session)
        → lookup token m.sessions ≡ found
        → live now (lookup other (check_expiry m token at found).0.sessions)
          ≡ live now (lookup other m.sessions)
    by_session none e = unfold check_expiry in refl
    by_session (some session) e =
        unfold check_expiry in
        (elim (Bool-cases (ltb session.expires at)) [
          | inl expired ↦
              rw (expired, lookup-delete token other m.sessions)
                (live_without m token other now session e
                  (let early = ltb→lt session.expires at expired in omega arith))
          | inr kept ↦ rw kept refl
        ])

live-act :
    (a : Action) (at : Time) (m : SessionManager) (token : Str) (now : Time)
    → at ≤ now
    → live now (lookup token (act a at m).sessions)
      ≡ live now (granted a (at + m.ttl) token (lookup token m.sessions))
unfolding act create put_session random_token destroy
live-act (signs_in username buffer) at m token now le =
    ap (live now) (lookup-insert _ token _ m.sessions)
live-act (looks_up other) at m token now le = live-lookup_session m other token at now le
live-act (signs_out other) at m token now le = ap (live now) (lookup-delete other token m.sessions)

live-granted :
    (a : Action) (expires : Time) (token : Str) (now : Time) (s t : Option Session)
    → live now s ≡ live now t
    → live now (granted a expires token s) ≡ live now (granted a expires token t)
live-granted (signs_in username buffer) expires token now s t h = ground arith
live-granted (looks_up other) expires token now s t h = h
live-granted (signs_out other) expires token now s t h = ground arith

Ordered-later : (t now : Time) (past : List Step) → t ≤ now → Ordered t past → Ordered now past
Ordered-later t now [] le h = tt
Ordered-later t now (s ∷ past) le h = (omega (arith, h.0), h.1)

live-state_after :
    (ttl : Time) (past : List Step) (token : Str) (now : Time)
    → Ordered now past
    → live now (lookup token (state_after ttl past).sessions) ≡ live now (owner ttl past token)
live-state_after ttl [] token now h = unfold new_session_manager lookup in refl
live-state_after ttl (s ∷ past) token now h =
    live-act s.action s.time (state_after ttl past) token now h.0
    ∙ ap
        (λ (k : Time).
          live now
            (granted s.action (s.time + k) token (lookup token (state_after ttl past).sessions)))
        (ttl-state_after ttl past)
    ∙ live-granted s.action (s.time + ttl) token now _ _
        (live-state_after ttl past token now (Ordered-later s.time now past h.0 h.1))

-- After any sequence of sign-ins, lookups and sign-outs, at times that do not decrease, looking up
-- a token finds the session of the last sign-in that drew it, exactly where no sign-out with the
-- token came after that and no more time than `ttl` has passed.
pub lookup_session-state_after :
    (ttl : Time) (past : List Step) (token : Str) (now : Time)
    → Ordered now past
    → (lookup_session (state_after ttl past) token now).1 ≡ live now (owner ttl past token)
lookup_session-state_after ttl past token now h =
    lookup_session-live (state_after ttl past) token now ∙ live-state_after ttl past token now h

hex_digit-injective : (m n : ℕ) → m < 16 → n < 16 → hex_digit m ≡ hex_digit n → m ≡ n
hex_digit-injective m n hm hn e = ground arith

-- Different random bytes give different tokens.
pub hex-injective : (s t : Str) → IsBytes s → IsBytes t → hex s ≡ hex t → s ≡ t
unfolding hex
hex-injective [] [] hs ht e = refl
hex-injective [] (c ∷ t) hs ht e = cc
hex-injective (b ∷ s) [] hs ht e = cc
hex-injective (b ∷ s) (c ∷ t) hs ht e =
    let high : hex_digit (b / 16) ≡ hex_digit (c / 16) = cc in
    let low : hex_digit (b % 16) ≡ hex_digit (c % 16) = cc in
    let rest : hex s ≡ hex t = cc in
    let same_high = hex_digit-injective (b / 16) (c / 16) (omega arith) (omega arith) high in
    let same_low = hex_digit-injective (b % 16) (c % 16) (omega arith) (omega arith) low in
    let same : b ≡ c = omega arith in let same_rest = hex-injective s t hs.1 ht.1 rest in cc
