-- ===== src/Tests/Auth.antt =====
-- auth/service.py and api/deps.py with hashes that only join their arguments.
use Prim.Native.String.{◌++◌ as ◌<>◌}
use v2pi.Base.{◌≡◌, ◌≢◌, ◌⊎◌, ◌≤◌, refl, arith, true, false, String, none, some, [], ◌∷◌}
use v2pi.Auth.{
  monitor, readwrite, PasswordHash, Store, create_credential, set_password, session_epoch,
  csrf_matches,
}
use v2pi.Auth.Access.{Request, token_principal, require_auth, require_csrf}
use v2pi.Auth.Access.Revocation.{MayWrite, IsInTime, set_password-revokes, require_csrf-authorizes}

abbrev kdf : String → String → String
kdf salt password = salt <> password

abbrev hash_token : String → String
hash_token token = token <> "#"

abbrev dummy : PasswordHash
dummy = record { salt = "d"; hash = "x" }

abbrev empty : Store
empty = record {
  username = none;
  password_hash = none;
  session_epoch = none;
  session_timeout_min = 30;
  tokens =
      record { hash = "m#"; scope = monitor; expires_at = none }
      ∷ record { hash = "w#"; scope = readwrite; expires_at = some 5000 }
      ∷ [];
}

abbrev made : Store
made = record empty {
  username = some "op";
  password_hash = some (record { salt = "s"; hash = "spw" });
}

created : create_credential kdf "s" "op" "pw" empty ≡ some made
unfolding create_credential
created = refl

-- A browser that is signed in, and a script with a token.
abbrev browser : Request
browser = record {
  bearer = none;
  is_get = false;
  path = "/api/nodes";
  session = record { authed = true; epoch = 0; last_seen = some 900; csrf = some "c" };
  csrf_header = some "c";
}

abbrev script : Request
script = record browser { bearer = some "m"; is_get = true; path = "/api/status" }

let_in : (require_auth hash_token 1000 browser made).0 ≡ none
unfolding require_auth session_epoch
let_in = refl

proven : require_csrf hash_token 1000 browser made ≡ none
unfolding require_csrf csrf_matches
proven = refl

set_password-revokes_example :
    (require_auth hash_token 1000 browser (set_password kdf "t" "new" made)).0 ≢ none
set_password-revokes_example = set_password-revokes hash_token kdf "t" "new" 1000 browser made old
  where
    old : 0 ≤ session_epoch made
    old = omega arith

require_csrf-authorizes_example :
    MayWrite hash_token 1000 browser made
    ⊎ ((true ≡ true)
        × (0 ≡ session_epoch made)
        × IsInTime 1000 browser.session made
        × ((c : String) × ((browser.session.csrf ≡ some c)
              × (browser.csrf_header ≡ some c)
              × (c ≢ ""))))
require_csrf-authorizes_example = require_csrf-authorizes hash_token 1000 browser made let_in proven

watching : token_principal hash_token 1000 script made ≡ some monitor
unfolding token_principal
watching = refl
