-- ===== src/Auth/Totp/Enrolment.antt =====
-- Enrolment in the second factor, and the way out of it.
use hamyar_ops.Base.{
  ◌≡◌, refl, ◌⊎◌, String, true, false, none, some, List, [], map, arith, str_eq, is_some, JsText,
}
use hamyar_ops.Prisma.{Database, find_first}
use hamyar_ops.Http.{ok}
use hamyar_ops.Security.Secrets.{Env}
use hamyar_ops.Security.LoginThrottle.{get_login_lock_remaining_ms}
use hamyar_ops.Auth.State.{User, Libraries, Request, Auth}
use hamyar_ops.Auth.Login.{index_of, open_session, login}
use hamyar_ops.Auth.Login.BackupCodes.{find-update}
use hamyar_ops.Auth.Totp.{setup_totp, disable_totp}

module _ ⦃db : Database⦄ ⦃js : JsText⦄ (lib : Libraries) (env : Env) (req : Request) where
  -- The second factor of a user is switched off only with a valid one-time code or a listed backup
  -- code, and then the secret and the codes are gone.
  pub disable_totp_sound :
      (id token : String) (user : User) (s s' : Auth)
      → disable_totp lib env req id token s ≡ (ok tt, s')
      → find_first (λ u. str_eq u.id id) s.users ≡ some user
      → (user.totp_enabled ≡ true)
        × ((lib.totp_verify req.now user.totp_secret token ≡ true)
            ⊎ (is_some (index_of (lib.sha256_hex token) user.totp_backup_codes) ≡ true))
        × (find_first (λ u. str_eq u.id id) s'.users
            ≡ some
                (record user { totp_enabled = false; totp_secret = none; totp_backup_codes = [] }))
  unfolding disable_totp
  disable_totp_sound id token user s s' h found = (
    ground arith,
    ground arith,
    ground (
      arith,
      find-update lib env req id
          (λ u. record u { totp_enabled = false; totp_secret = none; totp_backup_codes = [] }) user
          s.users (λ u. refl) found,
    ),
  )

  -- The row that `setup_totp` leaves.
  enrolled : String → List String → User → User
  enrolled secret plain u = record u {
    totp_secret = some secret;
    totp_enabled = false;
    totp_backup_codes = map lib.sha256_hex plain;
  }

  -- Setting up the second factor asks for no code, and it also switches off one that is enabled:
  -- afterwards the user, found by the name as by the id, logs in with the password alone.
  pub login-setup_totp :
      (later : Request) (password secret : String) (plain : List String) (user : User) (s s' : Auth)
      (r : String × List String)
      → find_first (λ u. str_eq u.id user.id) s.users ≡ some user
      → setup_totp lib env req user.id secret plain s ≡ (ok r, s')
      → (find_first (λ u. str_eq u.username user.username) s'.users
          ≡ find_first (λ u. str_eq u.id user.id) s'.users)
      → lib.bcrypt_compare password user.password_hash ≡ true
      → get_login_lock_remaining_ms later.now user.username later.ip s'.attempts ≡ 0
      → login lib env later user.username password none s'
        ≡ open_session lib env later user.username
            (record user {
              totp_secret = some secret;
              totp_enabled = false;
              totp_backup_codes = map lib.sha256_hex plain;
            })
            s'
  unfolding setup_totp login
  login-setup_totp later password secret plain user s s' r found done named right unlocked =
      ground (
        arith,
        find-update lib env req user.id
            (λ u. record u {
              totp_secret = some secret;
              totp_enabled = false;
              totp_backup_codes = map lib.sha256_hex plain;
            })
            user s.users (λ u. refl) found,
      )
