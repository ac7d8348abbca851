-- ===== src/Auth/Login/Failures.antt =====
-- What a login that is refused answers and changes.
use hamyar_ops.Base.{
  ◌+◌, ◌/◌, ◌<◌, ◌≡◌, ◌⊎◌, ◌≢◌, String, true, false, Option, none, some, arith, eq_iff, str_eq,
  JsText,
}
use hamyar_ops.Prisma.{Database, find_first}
use hamyar_ops.Http.{Exception, unauthorized, too_many_requests, err}
use hamyar_ops.Security.Secrets.{Env}
use hamyar_ops.Security.LoginThrottle.{get_login_lock_remaining_ms, record_login_failure}
use hamyar_ops.Auth.State.{User, Libraries, Request, Auth}
use hamyar_ops.Auth.Login.{index_of, login}

module _ ⦃db : Database⦄ ⦃js : JsText⦄ (lib : Libraries) (env : Env) (req : Request) where
  open db use {rows}

  -- The state after one more failure of the account.
  abbrev pub failed : String → Auth → Auth
  failed username s = record s {
    attempts = (record_login_failure req.now username req.ip s.attempts).0;
  }

  -- While the account is locked, a login answers 429 with the waiting time in seconds, rounded up,
  -- and changes nothing, whatever the password and the second factor.
  pub login_of_locked :
      (username password : String) (token : Option String) (s : Auth)
      → 0 < get_login_lock_remaining_ms req.now username req.ip s.attempts
      → login lib env req username password token s ≡ (
        err (
            too_many_requests
              ((get_login_lock_remaining_ms req.now username req.ip s.attempts + 999) / 1000)),
        s,
      )
  unfolding login
  login_of_locked username password token s locked = ground arith

  -- No user has the name, or the user with it has another password.
  abbrev pub IsWrong : String → String → Auth → Type 0
  IsWrong username password s =
      (find_first (λ u. str_eq u.username username) s.users ≡ none)
      ⊎ ((u : User) × (find_first (λ u. str_eq u.username username) s.users ≡ some u)
          × (lib.bcrypt_compare password u.password_hash ≡ false))

  -- With an unknown name or a wrong password an account that is not locked gets the same answer,
  -- and the same effect: one more failure of the account, and nothing else.
  pub login_of_wrong :
      (username password : String) (token : Option String) (s : Auth)
      → get_login_lock_remaining_ms req.now username req.ip s.attempts ≡ 0
      → IsWrong username password s
      → login lib env req username password token s
        ≡ (err (unauthorized "Invalid credentials"), failed username s)
  unfolding login
  login_of_wrong username password token s unlocked wrong = ground arith

  -- With the right password and a second factor that is neither a valid one-time code nor a backup
  -- code, the answer is 401; the account has one more failure, and nothing else changes.
  pub login_of_wrong_totp :
      (username password token : String) (user : User) (s : Auth)
      → get_login_lock_remaining_ms req.now username req.ip s.attempts ≡ 0
      → find_first (λ u. str_eq u.username username) s.users ≡ some user
      → lib.bcrypt_compare password user.password_hash ≡ true
      → user.totp_enabled ≡ true
      → token ≢ ""
      → lib.totp_verify req.now user.totp_secret token ≡ false
      → index_of (lib.sha256_hex token) user.totp_backup_codes ≡ none
      → login lib env req username password (some token) s
        ≡ (err (unauthorized "Invalid TOTP token"), failed username s)
  unfolding login
  login_of_wrong_totp username password token user s unlocked found right on given invalid
        unlisted =
      ground (arith, eq_iff token "")

  -- A login that is refused, for whatever reason, creates no session.
  pub login_error-sessions :
      (username password : String) (token : Option String) (s s' : Auth) (e : Exception)
      → login lib env req username password token s ≡ (err e, s')
      → s'.sessions ≡ s.sessions
  unfolding login
  login_error-sessions username password token s s' e h = ground arith
