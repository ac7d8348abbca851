-- ===== src/Auth/Login/Soundness.antt =====
-- Whom `login` lets in, and what a successful login leaves behind.
use hamyar_ops.Base.{
  ℕ, ◌≡◌, ap, ◌∙◌, ◌⊎◌, String, Bool, true, false, Option, none, some, [], ◌∷◌, ◌++◌, arith, str_eq,
  any, JsText,
}
use hamyar_ops.Prisma.{Database, find_first}
use hamyar_ops.Http.{ok, >>=-eq-ok}
use hamyar_ops.Security.Secrets.{Env}
use hamyar_ops.Security.LoginThrottle.{get_login_lock_remaining_ms, clear_login_failures}
use hamyar_ops.Auth.State.{User, Libraries, Request, Auth}
use hamyar_ops.Auth.Login.{
  Tokens, SafeUser, safe_user, index_of, validate_user, check_totp, second_factor, new_session,
  open_session, login,
}

module _ ⦃db : Database⦄ ⦃js : JsText⦄ (lib : Libraries) (env : Env) (req : Request) where
  open db use {rows}

  -- The account may log in with this password at the time of the request.
  pub record HasPassword (username password : String) (user : User) (s : Auth) : Type 0 where
    pub found : find_first (λ u. str_eq u.username username) s.users ≡ some user
    pub password_right : lib.bcrypt_compare password user.password_hash ≡ true
    pub unlocked : get_login_lock_remaining_ms req.now username req.ip s.attempts ≡ 0

  -- The second factor that `login` accepts.
  abbrev pub HasSecondFactor : User → Option String → Type 0
  HasSecondFactor user none = ⊥
  HasSecondFactor user (some token) =
      (lib.totp_verify req.now user.totp_secret token ≡ true)
      ⊎ ((i : ℕ) × (index_of (lib.sha256_hex token) user.totp_backup_codes ≡ some i))

  validate_user_sound :
      (username password : String) (s s' : Auth) (user : User)
      → validate_user lib env req username password s ≡ (ok user, s')
      → HasPassword username password user s × (s' ≡ s)
  unfolding validate_user
  validate_user_sound username password s s' user h = ground arith

  check_totp_sound :
      (username : String) (user : User) (token : Option String) (s s' : Auth)
      → check_totp lib env req username user token s ≡ (ok tt, s')
      → HasSecondFactor user token
  unfolding check_totp
  check_totp_sound username user none s s' h = cc
  check_totp_sound username user (some t) s s' h = ground arith

  -- The effect of `open_session`: the failures of the account are cleared, and the sessions have
  -- one more row, for this user, with the hash of the returned refresh token.
  pub record HasOpened (username : String) (user : User) (s s' : Auth) (tokens : Tokens)
      : Type 0 where
    pub cleared : s'.attempts ≡ clear_login_failures username req.ip s.attempts
    pub opened :
        rows s'.sessions
        ≡ rows s.sessions
          ++ new_session lib env req user.id (lib.sha256_hex tokens.refresh_token) ∷ []
    pub was_free :
        any
          (λ t. str_eq t.refresh_token_hash (lib.sha256_hex tokens.refresh_token))
          (rows s.sessions)
        ≡ false

  open_session_lem :
      (username : String) (user : User) (s s' : Auth) (tokens : Tokens) (safe : SafeUser)
      → open_session lib env req username user s ≡ (ok (tokens, safe), s')
      → HasOpened username user s s' tokens × (safe ≡ safe_user user)
  unfolding open_session
  open_session_lem username user s s' tokens safe h = ground (
    arith,
    db.rows-create (new_session lib env req user.id (lib.sha256_hex tokens.refresh_token))
        s.sessions,
  )

  -- Whom a login lets in, and what it leaves.
  pub record IsAdmitted (username password : String) (token : Option String) (s s' : Auth)
      (tokens : Tokens) (safe : SafeUser) : Type 0 where
    pub user : User
    pub has_password : HasPassword username password user s
    pub second_factor : user.totp_enabled ≡ true → HasSecondFactor user token
    pub returned : safe ≡ safe_user user
    pub has_opened : HasOpened username user s s' tokens

  second_factor_sound :
      (enabled : Bool) (username : String) (user : User) (token : Option String) (s s' : Auth)
      → second_factor lib env req enabled username user token s ≡ (ok tt, s')
      → (enabled ≡ true → HasSecondFactor user token)
        × (s'.attempts ≡ s.attempts)
        × (s'.sessions ≡ s.sessions)
  unfolding second_factor
  second_factor_sound false username user token s s' h = (λ on. cc, ground arith, ground arith)
  second_factor_sound true username user none s s' h = cc
  second_factor_sound true username user (some t) s s' h =
      (λ _. check_totp_sound username user (some t) s s' h, ground arith, ground arith)

  HasOpened-of_same :
      {username : String} {user : User} {s t s' : Auth} {tokens : Tokens}
      → t.attempts ≡ s.attempts
      → t.sessions ≡ s.sessions
      → HasOpened username user t s' tokens
      → HasOpened username user s s' tokens
  HasOpened-of_same a b o = record {
    cleared = cc (o.cleared, a);
    opened = cc (o.opened, b);
    was_free = cc (o.was_free, b);
  }

  -- A login that succeeds is of a user with this name, whose password is right and whose account is
  -- not locked, and who, if the second factor is enabled, has given a valid one-time code or an
  -- unused backup code. It returns that user, clears the failures of the account, and adds one
  -- session of that user with the hash of the returned refresh token and its expiry.
  pub login_sound :
      (username password : String) (token : Option String) (s s' : Auth) (tokens : Tokens)
      (safe : SafeUser)
      → login lib env req username password token s ≡ (ok (tokens, safe), s')
      → IsAdmitted username password token s s' tokens safe
  unfolding login
  login_sound username password token s s' tokens safe h =
      let (user, t, checked, rest) = >>=-eq-ok (validate_user lib env req username password) _ h in
      let (has_password, same) = validate_user_sound username password s t user checked in
      let (_, v, passed, last) =
        >>=-eq-ok (second_factor lib env req user.totp_enabled username user token) _ rest in
      let (factor, a, b) = second_factor_sound user.totp_enabled username user token t v passed in
      let (opened, safe_eq) = open_session_lem username user v s' tokens safe last in
      record {
        user = user;
        has_password = has_password;
        second_factor = factor;
        returned = safe_eq;
        has_opened =
            HasOpened-of_same (a ∙ ap (λ (x : Auth). x.attempts) same)
              (b ∙ ap (λ (x : Auth). x.sessions) same) opened;
      }
