-- ===== src/Auth/Login.antt =====
-- `validateUser`, `login` and `generateTokens` of auth.service.ts. Each call of `Date.now()` in a
-- handler is the request's time.
pub mod Soundness
pub mod Failures
pub mod BackupCodes
use hamyar_ops.Base.{
  true, false, ℕ, zero, suc, ◌+◌, ◌*◌, ◌/◌, String, Bool, ◌&&◌, Option, none, some, List, [], ◌∷◌,
  if◌then◌else◌, ltb, str_eq, any, JsText,
}
use hamyar_ops.Prisma.{Database, find_first}
use hamyar_ops.Http.{
  Exception, unauthorized, too_many_requests, unique_violation, Result, ok, err, Handler, pure,
  throw, modify, ◌>>=◌, ◌>>◌,
}
use hamyar_ops.Security.Secrets.{Env, get_jwt_access_secret, get_jwt_refresh_secret}
use hamyar_ops.Security.LoginThrottle.{
  Attempts, get_login_lock_remaining_ms, record_login_failure, clear_login_failures,
}
use hamyar_ops.Auth.State.{Role, User, Session, Payload, Libraries, Request, Auth}

pub record Tokens : Type 0 where
  pub access_token : String
  pub refresh_token : String

-- The user without its password hash and its one-time secret, as `login` returns it.
pub record SafeUser : Type 0 where
  pub id : String
  pub username : String
  pub email : String
  pub role : Role
  pub totp_enabled : Bool
  pub totp_backup_codes : List String
  pub last_login_at : Option ℕ

unfoldable pub safe_user : User → SafeUser
safe_user u = record {
  id = u.id;
  username = u.username;
  email = u.email;
  role = u.role;
  totp_enabled = u.totp_enabled;
  totp_backup_codes = u.totp_backup_codes;
  last_login_at = u.last_login_at;
}

-- `codes.indexOf(c)`, with `none` for -1.
unfoldable pub index_of : String → List String → Option ℕ
index_of c [] = none
index_of c (d ∷ ds) =
    if str_eq d c then some 0 else elim (index_of c ds) [ none ↦ none | some i ↦ some (suc i) ]

-- `codes.splice(i, 1)`: the codes that remain.
unfoldable pub splice_one : ℕ → List String → List String
splice_one i [] = []
splice_one zero (d ∷ ds) = ds
splice_one (suc i) (d ∷ ds) = d ∷ splice_one i ds

module _ ⦃db : Database⦄ ⦃js : JsText⦄ (lib : Libraries) (env : Env) (req : Request) where
  open db use {Table, rows, create, update_many}

  unfoldable pub assert_not_locked : String → Handler Auth (Unit {0})
  assert_not_locked username s =
      let remaining = get_login_lock_remaining_ms req.now username req.ip s.attempts in
      if ltb 0 remaining
      then (err (too_many_requests ((remaining + 999) / 1000)), s)
      else (ok tt, s)

  abbrev pub fail : String → Handler Auth (Unit {0})
  fail username =
      modify
        λ s. record s { attempts = (record_login_failure req.now username req.ip s.attempts).0 }

  unfoldable pub check_password : String → String → Option User → Handler Auth User
  check_password username password none = do
    fail username
    throw (unauthorized "Invalid credentials")
  check_password username password (some user) =
      if lib.bcrypt_compare password user.password_hash
      then pure user
      else do fail username; throw (unauthorized "Invalid credentials")

  unfoldable pub validate_user : String → String → Handler Auth User
  unfolding assert_not_locked check_password
  validate_user username password = do
    assert_not_locked username
    user ← λ s. (ok (find_first (λ u. str_eq u.username username) s.users), s)
    check_password username password user

  -- `prisma.user.update` on the row of a user that the handler has read.
  abbrev pub update_user : String → (User → User) → Handler Auth (Unit {0})
  update_user id f = modify λ s. record s { users = update_many (λ u. str_eq u.id id) f s.users }

  unfoldable pub consume_backup_code : String → User → Option ℕ → Handler Auth (Unit {0})
  consume_backup_code username user none = do
    fail username
    throw (unauthorized "Invalid TOTP token")
  consume_backup_code username user (some i) =
      update_user user.id λ u. record u { totp_backup_codes = splice_one i user.totp_backup_codes }

  unfoldable pub check_totp : String → User → Option String → Handler Auth (Unit {0})
  unfolding consume_backup_code
  check_totp username user none = throw (unauthorized "TOTP token required")
  check_totp username user (some token) =
      if str_eq token ""
      then throw (unauthorized "TOTP token required")
      else if lib.totp_verify req.now user.totp_secret token
      then pure tt
      else consume_backup_code username user
          (index_of (lib.sha256_hex token) user.totp_backup_codes)

  -- `if (user.totpEnabled) { … }`
  unfoldable pub second_factor : Bool → String → User → Option String → Handler Auth (Unit {0})
  unfolding check_totp
  second_factor false username user token = pure tt
  second_factor true username user token = check_totp username user token

  -- Both tokens carry the second of their issue. The answer's expiresIn, a constant of the
  -- configuration, is left out.
  unfoldable pub generate_tokens : User → Handler Auth Tokens
  generate_tokens user = do
    access ← λ s. (get_jwt_access_secret env, s)
    refresh ← λ s. (get_jwt_refresh_secret env, s)
    let claims : Payload = record { sub = user.id; username = user.username; role = user.role }
    pure (record {
      access_token = lib.sign (req.now / 1000) claims access;
      refresh_token = lib.sign (req.now / 1000) claims refresh;
    })

  abbrev pub new_session : String → String → Session
  new_session user_id hash = record {
    id = req.new_id;
    user_id = user_id;
    refresh_token_hash = hash;
    ip_address = req.ip;
    user_agent = req.user_agent;
    expires_at = req.now + env.refresh_ttl_s * 1000;
  }

  -- `prisma.session.create`; the schema makes the hash unique.
  unfoldable pub create_session : String → String → Handler Auth (Unit {0})
  create_session user_id hash s =
      if any (λ t. str_eq t.refresh_token_hash hash) (rows s.sessions)
      then (err unique_violation, s)
      else (ok tt, record s { sessions = create (new_session user_id hash) s.sessions })

  -- What `login` does for a user whose password and second factor are right.
  unfoldable pub open_session : String → User → Handler Auth (Tokens × SafeUser)
  unfolding generate_tokens create_session safe_user
  open_session username user = do
    modify λ s. record s { attempts = clear_login_failures username req.ip s.attempts }
    tokens ← generate_tokens user
    create_session user.id (lib.sha256_hex tokens.refresh_token)
    update_user user.id λ u. record u { last_login_at = some req.now }
    pure (tokens, safe_user user)

  unfoldable pub login : String → String → Option String → Handler Auth (Tokens × SafeUser)
  unfolding validate_user second_factor open_session
  login username password totp_token = do
    user ← validate_user username password
    second_factor user.totp_enabled username user totp_token
    open_session username user
