-- ===== src/Auth/Access.antt =====
-- api/deps.py: the two gates that a request passes, `require_auth` on each route and `require_csrf` on
-- each that changes something. A refusal is a value.
pub mod Revocation
use v2pi.Base.{
  ℕ, ◌+◌, ◌*◌, Bool, true, false, not, ◌&&◌, ◌||◌, ◌==◌, ltb, String, str_eq, Option, none, some,
  List, [], ◌∷◌, get_or, if◌then◌else◌,
}
use v2pi.Auth.{Scope, monitor, read, readwrite, other, Token, Store, session_epoch, csrf_matches}

-- The signed cookie. A session without an epoch counts as one of epoch 0.
pub record Session : Type 0 where
  pub authed : Bool
  pub epoch : ℕ
  pub last_seen : Option ℕ
  pub csrf : Option String

-- `session.clear()`
abbrev pub cleared : Session
cleared = record { authed = false; epoch = 0; last_seen = none; csrf = none }

-- A request: the Bearer secret, if there is one that is not empty, and the CSRF header.
pub record Request : Type 0 where
  pub bearer : Option String
  pub is_get : Bool
  pub path : String
  pub session : Session
  pub csrf_header : Option String

-- Why a session does not count.
pub data Reason : Type 0 where
  auth_required expired idle_timeout : Reason

pub data Refusal : Type 0 where
  unauthorized : Reason → Refusal
  monitor_only read_only bad_csrf : Refusal

-- The idle timeout, where the setting is not 0; a session that is in time is stamped.
check_idle : ℕ → Session → ℕ → Option Reason × Session
check_idle now session minutes =
    if minutes == 0
    then (none, session)
    else if ltb (get_or session.last_seen now + minutes * 60) now
    then (some idle_timeout, session)
    else (none, record session { last_seen = some now })

-- `session_invalid_reason`, which touches the session.
unfoldable pub session_invalid_reason : ℕ → Session → Store → Option Reason × Session
unfolding check_idle
session_invalid_reason now session st =
    if not session.authed
    then (some auth_required, session)
    else if not (session.epoch == session_epoch st)
    then (some expired, session)
    else check_idle now session st.session_timeout_min

-- `get_token_by_hash`
unfoldable pub get_token_by_hash : String → List Token → Option Token
get_token_by_hash hash [] = none
get_token_by_hash hash (t ∷ tokens) =
    let rest = get_token_by_hash hash tokens in if str_eq t.hash hash then some t else rest

unexpired : ℕ → Option Token → Option Scope
unexpired now none = none
unexpired now (some t) = elim t.expires_at [
  | none ↦ some t.scope
  | some at ↦ if ltb now at then some t.scope else none
]

is_monitor : Scope → Bool
is_monitor monitor = true
is_monitor _ = false

is_readwrite : Scope → Bool
is_readwrite readwrite = true
is_readwrite _ = false

-- The paths that a monitor token may read.
unfoldable pub monitored : String → Bool
monitored path =
    str_eq path "/api/status"
    || (str_eq path "/api/traffic/history"
        || (str_eq path "/api/node-health" || str_eq path "/api/network"))

by_token : Request → Scope → Option Refusal × Session
unfolding is_monitor
by_token req scope =
    if is_monitor scope && not (req.is_get && monitored req.path)
    then (some monitor_only, req.session)
    else (none, req.session)

by_session : Option Reason × Session → Option Refusal × Session
by_session (none, session) = (none, session)
by_session (some idle_timeout, session) = (some (unauthorized idle_timeout), cleared)
by_session (some reason, session) = (some (unauthorized reason), session)

csrf_of : Request → Option Scope → Option Refusal
unfolding is_readwrite
csrf_of req (some scope) = if is_readwrite scope then none else some read_only
csrf_of req none = if csrf_matches req.session.csrf req.csrf_header then none else some bad_csrf

module _ (hash_token : String → String) where
  -- `_token_principal`: the scope of the token that the request carries. The stamp `last_used_at`
  -- that `touch_token` leaves is read by nothing here, and left out.
  unfoldable pub token_principal : ℕ → Request → Store → Option Scope
  unfolding unexpired get_token_by_hash
  token_principal now req st = elim req.bearer [
    | none ↦ none
    | some secret ↦ unexpired now (get_token_by_hash (hash_token secret) st.tokens)
  ]

  auth_of : ℕ → Request → Store → Option Scope → Option Refusal × Session
  unfolding by_token by_session
  auth_of now req st (some scope) = by_token req scope
  auth_of now req st none = by_session (session_invalid_reason now req.session st)

  -- `require_auth`: none is a pass; the session goes back in the cookie.
  unfoldable pub require_auth : ℕ → Request → Store → Option Refusal × Session
  unfolding auth_of token_principal session_invalid_reason
  require_auth now req st = auth_of now req st (token_principal now req st)

  -- `require_csrf`
  unfoldable pub require_csrf : ℕ → Request → Store → Option Refusal
  unfolding csrf_of token_principal
  require_csrf now req st = csrf_of req (token_principal now req st)
