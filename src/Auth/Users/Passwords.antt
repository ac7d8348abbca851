-- ===== src/Auth/Users/Passwords.antt =====
-- Password changes.
use hamyar_ops.Base.{◌≡◌, refl, ◌≤◌, String, true, false, Option, some, arith, str_eq, JsText}
use hamyar_ops.Prisma.{Database, find_first}
use hamyar_ops.Http.{ok}
use hamyar_ops.Security.Secrets.{Env}
use hamyar_ops.Security.LoginThrottle.{get_login_lock_remaining_ms}
use hamyar_ops.Auth.State.{User, Libraries, Request, Auth}
use hamyar_ops.Auth.Login.{open_session, login}
use hamyar_ops.Auth.Login.BackupCodes.{find-update}
use hamyar_ops.Auth.Users.{change_password, reset_password}

module _ ⦃db : Database⦄ ⦃js : JsText⦄ (lib : Libraries) (env : Env) (req : Request) where
  -- The user's row after a password change.
  abbrev pub with_password : String → User → User
  with_password password u = record u { password_hash = lib.bcrypt_hash req.salt password }

  -- A changed password was changed by someone who knew the old one, has at least eight code units,
  -- and its hash replaces the old one in the user's row; sessions, passkeys and the login throttle
  -- stay.
  pub change_password_sound :
      (id current new : String) (user : User) (s s' : Auth)
      → change_password lib env req id current new s ≡ (ok tt, s')
      → find_first (λ u. str_eq u.id id) s.users ≡ some user
      → (lib.bcrypt_compare current user.password_hash ≡ true)
        × (8 ≤ js.length new)
        × (find_first (λ u. str_eq u.id id) s'.users ≡ some (with_password new user))
        × (s'.sessions ≡ s.sessions)
        × (s'.passkeys ≡ s.passkeys)
        × (s'.attempts ≡ s.attempts)
  unfolding change_password
  change_password_sound id current new user s s' h found =
      let row = find-update lib env req id (with_password new) user s.users (λ u. refl) found in
      (ground arith, ground arith, ground (arith, row), ground arith, ground arith, ground arith)

  -- After a password reset by an administrator a user without a second factor, found by the name
  -- as by the id, whose account is not locked, logs in with the new password, if bcrypt accepts a
  -- password against its own hash.
  pub login-reset_password :
      (later : Request) (new : String) (token : Option String) (user : User) (s s' : Auth)
      → find_first (λ u. str_eq u.id user.id) s.users ≡ some user
      → reset_password lib env req user.id new s ≡ (ok tt, s')
      → (find_first (λ u. str_eq u.username user.username) s'.users
          ≡ find_first (λ u. str_eq u.id user.id) s'.users)
      → lib.bcrypt_compare new (lib.bcrypt_hash req.salt new) ≡ true
      → user.totp_enabled ≡ false
      → get_login_lock_remaining_ms later.now user.username later.ip s'.attempts ≡ 0
      → login lib env later user.username new token s'
        ≡ open_session lib env later user.username (with_password new user) s'
  unfolding reset_password login
  login-reset_password later new token user s s' found done named accepts off unlocked =
      ground
        (arith, find-update lib env req user.id (with_password new) user s.users (λ u. refl) found)
