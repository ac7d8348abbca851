-- ===== src/Auth/Totp.antt =====
-- `setupTotp` and `verifyTotp` of auth.service.ts, and `disableTotp` of users.service.ts. The
-- secret and the backup codes that are drawn at random are arguments; the provisioning URL and its
-- picture are left out.
pub mod Enrolment
use hamyar_ops.Base.{
  String, true, false, Option, none, some, List, [], map, if◌then◌else◌, str_eq, truthy, not, ◌||◌,
  ◌&&◌, is_some, JsText,
}
use hamyar_ops.Prisma.{Database, find_first}
use hamyar_ops.Http.{bad_request, unauthorized, not_found, ok, Handler, pure, throw, ◌>>=◌, ◌>>◌}
use hamyar_ops.Security.Secrets.{Env}
use hamyar_ops.Auth.State.{User, Libraries, Request, Auth}
use hamyar_ops.Auth.Login.{index_of, update_user}

module _ ⦃db : Database⦄ ⦃js : JsText⦄ (lib : Libraries) (env : Env) (req : Request) where
  -- `findUnique({ where: { id } })` and `if (!user) throw new NotFoundException(message)`
  unfoldable pub require_user : String → String → Handler Auth User
  require_user message id s = elim (find_first (λ u. str_eq u.id id) s.users) [
    | none ↦ throw (not_found message) s
    | some user ↦ pure user s
  ]

  unfoldable pub setup_totp : String → String → List String → Handler Auth (String × List String)
  unfolding require_user
  setup_totp user_id secret plain = do
    user ← require_user "User not found" user_id
    update_user lib env req user_id λ u. record u {
      totp_secret = some secret;
      totp_enabled = false;
      totp_backup_codes = map lib.sha256_hex plain;
    }
    pure (secret, plain)

  unfoldable pub verify_totp : String → String → Handler Auth (Unit {0})
  unfolding require_user
  verify_totp user_id token = do
    user ← require_user "TOTP not setup" user_id
    if not (truthy user.totp_secret)
        then throw (not_found "TOTP not setup")
        else if not (lib.totp_verify req.now user.totp_secret token)
        then throw (unauthorized "Invalid TOTP token")
        else update_user lib env req user_id λ u. record u { totp_enabled = true }

  unfoldable pub disable_totp : String → String → Handler Auth (Unit {0})
  unfolding require_user
  disable_totp id token = do
    user ← require_user "User not found" id
    if not user.totp_enabled || not (truthy user.totp_secret)
        then throw (bad_request "2FA is not enabled")
        else if not (lib.totp_verify req.now user.totp_secret token)
            && not (is_some (index_of (lib.sha256_hex token) user.totp_backup_codes))
        then throw (unauthorized "Invalid TOTP token")
        else update_user lib env req id
            λ u. record u { totp_enabled = false; totp_secret = none; totp_backup_codes = [] }
