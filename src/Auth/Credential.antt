-- ===== src/Auth/Credential.antt =====
-- auth/service.py: the credential's life, from its creation to a change of the password.
use v2pi.Base.{
  ◌≡◌, refl, sym, ap, ◌∙◌, Bool, true, not, ◌&&◌, Bool-cases, inl, inr, String, str_eq, none, some,
  eq_of_some,
}
use v2pi.Auth.{
  PasswordHash, Store, needs_setup, hash_password, verify_password_hash, create_credential,
  set_password, verify_login, user_matches,
}

-- The login of a user whose password was hashed with this salt.
abbrev pub is_login :
    (kdf : String → String → String) → (salt username password given_user given : String) → Bool
is_login kdf salt username password given_user given =
    (not (str_eq username "") && str_eq username given_user)
    && (not (str_eq given "") && str_eq (kdf salt given) (kdf salt password))

module _ (kdf : String → String → String) where
  -- A credential can be created only where there is none, and only once; from then on a login is
  -- accepted exactly for its username, if that is not empty, and a password with the same hash.
  pub create_credential-once :
      (salt username password : String) (st after : Store)
      → create_credential kdf salt username password st ≡ some after
      → (needs_setup st ≡ true)
        × ((salt' username' password' : String)
            → create_credential kdf salt' username' password' after ≡ none)
        × ((dummy : PasswordHash) (user given : String)
            → verify_login kdf dummy user given after
              ≡ is_login kdf salt username password user given)
  unfolding create_credential verify_login needs_setup hash_password user_matches
      verify_password_hash
  create_credential-once salt username password st after h = elim (Bool-cases (needs_setup st)) [
    | inl e ↦
        let made = eq_of_some (rw e at h) in
        (
          e,
          (λ s u p. ap (create_credential kdf s u p) (sym made) ∙ refl),
          λ d u g. ap (verify_login kdf d u g) (sym made) ∙ refl,
        )
    | inr e ↦ absurd (cc (rw e at h))
  ]

  -- After a change of the password a login is accepted exactly for the same username and a password
  -- with the new hash.
  pub set_password-login :
      (salt password : String) (st : Store) (name : String) (dummy : PasswordHash)
      (user given : String)
      → st.username ≡ some name
      → verify_login kdf dummy user given (set_password kdf salt password st)
        ≡ is_login kdf salt name password user given
  unfolding set_password verify_login hash_password user_matches verify_password_hash
  set_password-login salt password st name dummy user given e = rw e refl
