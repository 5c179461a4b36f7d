-- ===== src/Auth/Access/Revocation.antt =====
-- auth/service.py and api/deps.py: what a change of the password ends, and who may change something.
use mathlib.Core.List.{Memᴰ}
use v2pi.Base.{
  ℕ, ◌≡◌, ◌≢◌, ◌≤◌, ◌<◌, ◌==◌, ◌+◌, ◌*◌, ◌⊎◌, List, ◌∷◌, Bool-cases, Option-cases, eq_iff, str_eq,
  eq_of_some, refl, sym, ap, ◌∙◌, arith, true, String, Option, none, some, [], inl, inr,
}
use v2pi.Auth.{
  Scope, monitor, read, readwrite, other, Token, Store, session_epoch, set_password, csrf_matches,
}
use v2pi.Auth.Access.{
  Session, Request, Reason, auth_required, expired, idle_timeout, session_invalid_reason,
  check_idle, get_token_by_hash, unexpired, token_principal, require_auth, require_csrf, monitored,
  auth_of, csrf_of, by_session,
}

session_expired :
    (now : ℕ) (session : Session) (st : Store)
    → session.epoch ≢ session_epoch st
    → (session_invalid_reason now session st).0 ≢ none
unfolding session_invalid_reason
session_expired now session st ne h = ground arith

session_valid :
    (now : ℕ) (session : Session) (st : Store)
    → (session_invalid_reason now session st).0 ≡ none
    → (session.authed ≡ true) × (session.epoch ≡ session_epoch st)
unfolding session_invalid_reason
session_valid now session st h = ground arith

-- No idle timeout is set, or the session has no stamp yet, or one within the timeout.
abbrev pub IsInTime : ℕ → Session → Store → Type 0
IsInTime now session st =
    (st.session_timeout_min ≡ 0)
    ⊎ (session.last_seen ≡ none)
    ⊎ ((seen : ℕ) × ((session.last_seen ≡ some seen) × (now ≤ seen + st.session_timeout_min * 60)))

session-IsInTime :
    (now : ℕ) (session : Session) (st : Store)
    → (session_invalid_reason now session st).0 ≡ none
    → IsInTime now session st
unfolding session_invalid_reason check_idle
session-IsInTime now session st h = elim (Option-cases session.last_seen) [
  | inl e ↦ inr (inl e)
  | inr (seen, e) ↦ elim (Bool-cases (st.session_timeout_min == 0)) [
    | inl z ↦ inl (ground (arith, z))
    | inr z ↦ inr (inr (seen, (e, ground (arith, h, z, e))))
  ]
]

by_session-none : (r : Option Reason × Session) → (by_session r).0 ≡ none → r.0 ≡ none
unfolding by_session
by_session-none (none, session) h = refl
by_session-none (some auth_required, session) h = cc h
by_session-none (some expired, session) h = cc h
by_session-none (some idle_timeout, session) h = cc h

module _ (hash_token : String → String) where
  no_principal :
      (now : ℕ) (req : Request) (st : Store)
      → st.tokens ≡ []
      → token_principal hash_token now req st ≡ none
  unfolding token_principal
  no_principal now req st e = go req.bearer refl
    where
      go : (o : Option String) → req.bearer ≡ o → token_principal hash_token now req st ≡ none
      go none b = rw (b, token_principal) refl
      go (some secret) b = rw (b, token_principal) (rw e refl)

  -- After a change of the password `require_auth` refuses each request that rests on what was given
  -- before: a session stamped with the epoch until then or an earlier one, with whatever token it
  -- also carries.
  pub set_password-revokes :
      (kdf : String → String → String) (salt password : String) (now : ℕ) (req : Request)
      (st : Store)
      → req.session.epoch ≤ session_epoch st
      → (require_auth hash_token now req (set_password kdf salt password st)).0 ≢ none
  unfolding require_auth set_password session_epoch
  set_password-revokes kdf salt password now req st old h =
      session_expired now req.session (set_password kdf salt password st)
        (λ e. omega (arith, e, old))
        (by_session-none _ (
          ap (λ o. (auth_of hash_token now req (set_password kdf salt password st) o).0)
            (sym (no_principal now req (set_password kdf salt password st) refl))
          ∙ h))

  -- The request carries the secret of a token of the store which has not expired, and whose scope is
  -- readwrite.
  abbrev pub MayWrite : ℕ → Request → Store → Type 0
  MayWrite now req st =
      (secret : String) × ((t : Token) × ((req.bearer ≡ some secret)
          × Memᴰ t st.tokens
          × (t.hash ≡ hash_token secret)
          × (t.scope ≡ readwrite)
          × ((t.expires_at ≡ none) ⊎ ((at : ℕ) × ((t.expires_at ≡ some at) × (now < at))))))

  get_token_by_hash-some :
      (hash : String) (tokens : List Token) (t : Token)
      → get_token_by_hash hash tokens ≡ some t
      → Memᴰ t tokens × (t.hash ≡ hash)
  unfolding get_token_by_hash
  get_token_by_hash-some hash [] t h = cc h
  get_token_by_hash-some hash (x ∷ tokens) t h = elim (Bool-cases (str_eq x.hash hash)) [
    | inl e ↦
        let same : x ≡ t = eq_of_some (rw (e, get_token_by_hash) at h) in
        (Memᴰ.head (sym same), ap (λ r. r.hash) (sym same) ∙ (eq_iff x.hash hash).0 e)
    | inr e ↦
        let (m, q) = get_token_by_hash-some hash tokens t (rw (e, get_token_by_hash) at h) in
        (Memᴰ.tail m, q)
  ]

  unexpired-some :
      (now : ℕ) (o : Option Token) (scope : Scope)
      → unexpired now o ≡ some scope
      → (t : Token) × ((o ≡ some t)
          × (t.scope ≡ scope)
          × ((t.expires_at ≡ none) ⊎ ((at : ℕ) × ((t.expires_at ≡ some at) × (now < at)))))
  unfolding unexpired
  unexpired-some now none scope h = cc h
  unexpired-some now (some t) scope h = elim (Option-cases t.expires_at) [
    | inl e ↦ (t, (refl, eq_of_some (rw (e, unexpired) at h), inl e))
    | inr (at, e) ↦
        let q = rw (e, unexpired) at h in
        (t, (refl, ground (arith, q), inr (at, (e, ground (arith, q)))))
  ]

  principal-MayWrite :
      (now : ℕ) (req : Request) (st : Store)
      → token_principal hash_token now req st ≡ some readwrite
      → MayWrite now req st
  unfolding token_principal
  principal-MayWrite now req st h = elim (Option-cases req.bearer) [
    | inl e ↦ absurd (cc (rw (e, token_principal) at h))
    | inr (secret, e) ↦
        let (t, (found, scope, time)) =
          unexpired-some now (get_token_by_hash (hash_token secret) st.tokens) readwrite
            (rw (e, token_principal) at h) in
        let (m, q) = get_token_by_hash-some (hash_token secret) st.tokens t found in
        (secret, (t, (e, m, q, scope, time)))
  ]

  csrf_matches-some :
      (session header : Option String)
      → csrf_matches session header ≡ true
      → (c : String) × ((session ≡ some c) × (header ≡ some c) × (c ≢ ""))
  unfolding csrf_matches
  csrf_matches-some none header h = cc h
  csrf_matches-some (some s) none h = cc h
  csrf_matches-some (some s) (some c) h = elim (Bool-cases (str_eq s c)) [
    | inl e ↦ (s, (refl, ap some (sym ((eq_iff s c).0 e)), λ q. ground (arith, (eq_iff s "").1 q)))
    | inr e ↦ ground arith
  ]

  -- Who passes both gates of a route that changes something has sent the secret of a token of the store
  -- that has not expired and is for reading and writing; or has a session that is signed in, of the
  -- present epoch, and, if an idle timeout is set, without a stamp or last seen within it, and has sent
  -- the CSRF token of that session, which is not empty.
  pub require_csrf-authorizes :
      (now : ℕ) (req : Request) (st : Store)
      → (require_auth hash_token now req st).0 ≡ none
      → require_csrf hash_token now req st ≡ none
      → MayWrite now req st
        ⊎ ((req.session.authed ≡ true)
            × (req.session.epoch ≡ session_epoch st)
            × IsInTime now req.session st
            × ((c : String) × ((req.session.csrf ≡ some c)
                  × (req.csrf_header ≡ some c)
                  × (c ≢ ""))))
  unfolding require_auth require_csrf auth_of csrf_of
  require_csrf-authorizes now req st a c = go (token_principal hash_token now req st) refl a c
    where
      go :
          (o : Option Scope)
          → token_principal hash_token now req st ≡ o
          → (auth_of hash_token now req st o).0 ≡ none
          → csrf_of req o ≡ none
          → MayWrite now req st
            ⊎ ((req.session.authed ≡ true)
                × (req.session.epoch ≡ session_epoch st)
                × IsInTime now req.session st
                × ((c : String) × ((req.session.csrf ≡ some c)
                      × (req.csrf_header ≡ some c)
                      × (c ≢ ""))))
      go (some readwrite) e h k = inl (principal-MayWrite now req st e)
      go (some monitor) e h k = cc k
      go (some read) e h k = cc k
      go (some other) e h k = cc k
      go none e h k =
          let v = by_session-none _ h in
          let (authed, epoch) = session_valid now req.session st v in
          inr (
            authed,
            epoch,
            session-IsInTime now req.session st v,
            csrf_matches-some req.session.csrf req.csrf_header (ground (arith, k)),
          )

  -- A request with a monitor token passes the first gate only as a GET of one of four paths, and
  -- never the second.
  pub require_auth-monitor :
      (now : ℕ) (req : Request) (st : Store)
      → token_principal hash_token now req st ≡ some monitor
      → ((require_auth hash_token now req st).0 ≡ none
          → (req.is_get ≡ true) × (monitored req.path ≡ true))
        × (require_csrf hash_token now req st ≢ none)
  unfolding require_auth require_csrf
  require_auth-monitor now req st e =
      (rw (e, require_auth) (λ h. ground (arith, h)), rw (e, require_csrf) (λ h. cc h))
