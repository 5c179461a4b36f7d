-- ===== src/Auth.antt =====
-- auth/service.py, auth/auth.py and auth/tokens.py: the operator's credential, the sessions and the
-- API tokens that rest on it. The hash functions are parameters: `kdf` is scrypt of a password with a
-- salt, `hash_token` is SHA-256 of a token.
pub mod Access
pub mod Credential
use v2pi.Base.{
  ℕ, ◌+◌, Bool, true, false, not, ◌&&◌, ◌==◌, String, str_eq, Option, none, some, List, [], ◌∷◌,
  any_of, get_or, if◌then◌else◌,
}

-- What a token may do: `SCOPES`, and a text that is none of them.
pub data Scope : Type 0 where
  monitor read readwrite other : Scope

-- A row of api_tokens.
pub record Token : Type 0 where
  pub hash : String
  pub scope : Scope
  pub expires_at : Option ℕ

-- A text `salt$hash`.
pub record PasswordHash : Type 0 where
  pub salt : String
  pub hash : String

-- The rows that authentication reads: `auth_username`, `auth_password_hash` (as `hash_password` wrote
-- it), `session_epoch`, `session_timeout_min`, and the tokens. An empty text counts as none.
pub record Store : Type 0 where
  pub username : Option String
  pub password_hash : Option PasswordHash
  pub session_epoch : Option ℕ
  pub session_timeout_min : ℕ
  pub tokens : List Token

-- `needs_setup`
unfoldable pub needs_setup : Store → Bool
needs_setup st = elim st.password_hash [ none ↦ true | some _ ↦ false ]

-- `session_epoch`
unfoldable pub session_epoch : Store → ℕ
session_epoch st = get_or st.session_epoch 0

-- `bump_session_epoch`
unfoldable pub bump_session_epoch : Store → Store
unfolding session_epoch
bump_session_epoch st = record st { session_epoch = some (session_epoch st + 1) }

module _ (kdf : String → String → String) where
  -- `hash_password`, with the salt that was drawn.
  unfoldable pub hash_password : String → String → PasswordHash
  hash_password salt password = record { salt = salt; hash = kdf salt password }

  -- `verify_password_hash`: an empty password never matches.
  unfoldable pub verify_password_hash : PasswordHash → String → Bool
  verify_password_hash stored given =
      not (str_eq given "") && str_eq (kdf stored.salt given) stored.hash

  -- `create_credential`; none is the ValueError.
  unfoldable pub create_credential : String → String → String → Store → Option Store
  unfolding needs_setup hash_password
  create_credential salt username password st =
      if needs_setup st
      then some (record st {
        username = some username;
        password_hash = some (hash_password salt password);
      })
      else none

  -- `set_password`: the hash, the epoch and every token, in one transaction.
  unfoldable pub set_password : String → String → Store → Store
  unfolding bump_session_epoch hash_password
  set_password salt password st =
      record (bump_session_epoch
        (record st { password_hash = some (hash_password salt password) })) { tokens = [] }

  user_matches : Option String → String → Bool
  user_matches none given = false
  user_matches (some user) given = not (str_eq user "") && str_eq user given

  -- `verify_login`; `dummy` is `_DUMMY_HASH`.
  unfoldable pub verify_login : PasswordHash → String → String → Store → Bool
  unfolding user_matches verify_password_hash
  verify_login dummy username password st =
      let ok_user = user_matches st.username username in
      let ok_password = verify_password_hash (get_or st.password_hash dummy) password in
      ok_user && ok_password

-- `csrf_matches`, where none and the empty text are alike.
unfoldable pub csrf_matches : Option String → Option String → Bool
csrf_matches none header = false
csrf_matches (some session) none = false
csrf_matches (some session) (some header) =
    not (str_eq session "") && (not (str_eq header "") && str_eq session header)
