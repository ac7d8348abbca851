-- ===== src/Auth/Users.antt =====
-- users.service.ts. The results that clients read, rows without their secrets, are the rows.
pub mod Taken
pub mod Unique
pub mod Passwords
use hamyar_ops.Base.{
  ℕ, String, Bool, ◌&&◌, ◌||◌, not, Option, none, some, [], if◌then◌else◌, ltb, str_eq, is_text,
  truthy, any, or_else, first, JsText, true, false,
}
use hamyar_ops.Prisma.{Database, find_first}
use hamyar_ops.Http.{
  bad_request, not_found, conflict, unique_violation, ok, err, Handler, pure, throw, modify, ◌>>=◌,
  ◌>>◌,
}
use hamyar_ops.Security.Secrets.{Env}
use hamyar_ops.Auth.State.{Role, User, Session, Passkey, Libraries, Request, Auth}
use hamyar_ops.Auth.Login.{update_user}
use hamyar_ops.Auth.Totp.{require_user}

pub record CreateUser : Type 0 where
  pub username : String
  pub email : String
  pub password : String
  pub role : Role

pub record UpdateUser : Type 0 where
  pub username : Option String
  pub email : Option String
  pub role : Option Role

-- The row after `data: dto`: a field that the request leaves out stays.
abbrev pub apply_dto : UpdateUser → User → User
apply_dto dto u = record u {
  username = or_else dto.username u.username;
  email = or_else dto.email u.email;
  role = or_else dto.role u.role;
}

module _ ⦃db : Database⦄ ⦃js : JsText⦄ (lib : Libraries) (env : Env) (req : Request) where
  open db use {rows, create, delete_many}

  unfoldable pub create_user : CreateUser → Handler Auth User
  create_user dto s =
      let exists =
        any (λ u. str_eq u.username dto.username || str_eq u.email dto.email) (rows s.users) in
      let row : User = record {
        id = req.new_id;
        username = dto.username;
        email = dto.email;
        password_hash = lib.bcrypt_hash req.salt dto.password;
        role = dto.role;
        totp_secret = none;
        totp_enabled = false;
        totp_backup_codes = [];
        last_login_at = none;
      } in
      if exists
      then (err (conflict "Username or email already in use"), s)
      else (ok row, record s { users = create row s.users })

  -- `dto.username || dto.email`, and the conditions that are spread into `OR`.
  abbrev clashes : String → UpdateUser → User → Bool
  clashes id dto u =
      not (str_eq u.id id)
      && ((truthy dto.username && is_text dto.username u.username)
          || (truthy dto.email && is_text dto.email u.email))

  -- The schema makes names and addresses unique.
  abbrev breaks_unique : String → User → User → Bool
  breaks_unique id row u =
      not (str_eq u.id id) && (str_eq u.username row.username || str_eq u.email row.email)

  unfoldable pub save_user : String → UpdateUser → User → Handler Auth (Unit {0})
  save_user id dto user s =
      if any (breaks_unique id (apply_dto dto user)) (rows s.users)
      then (err unique_violation, s)
      else update_user lib env req id (apply_dto dto) s

  unfoldable pub update : String → UpdateUser → Handler Auth (Unit {0})
  unfolding require_user save_user
  update id dto = do
    user ← require_user lib env req "User not found" id
    conflicting ← λ s.
        (ok ((truthy dto.username || truthy dto.email) && any (clashes id dto) (rows s.users)), s)
    if conflicting
        then throw (conflict "Username or email already in use")
        else save_user id dto user

  -- The schema deletes the user's sessions and passkeys with the row.
  unfoldable pub delete : String → String → Handler Auth (Unit {0})
  unfolding require_user
  delete id requesting_user_id =
      if str_eq id requesting_user_id
      then throw (bad_request "Cannot delete your own account")
      else do
        user ← require_user lib env req "User not found" id
        modify λ s. record s {
          users = delete_many (λ u. str_eq u.id id) s.users;
          sessions = delete_many (λ (t : Session). str_eq t.user_id id) s.sessions;
          passkeys = delete_many (λ (k : Passkey). str_eq k.user_id id) s.passkeys;
        }

  abbrev set_password : String → String → Handler Auth (Unit {0})
  set_password id password =
      update_user lib env req id λ u. record u { password_hash = lib.bcrypt_hash req.salt password }

  unfoldable pub change_password : String → String → String → Handler Auth (Unit {0})
  unfolding require_user
  change_password id current new = do
    user ← require_user lib env req "User not found" id
    if not (lib.bcrypt_compare current user.password_hash)
        then throw (bad_request "Current password is incorrect")
        else if ltb (js.length new) 8
        then throw (bad_request "New password must be at least 8 characters")
        else set_password id new

  unfoldable pub reset_password : String → String → Handler Auth (Unit {0})
  unfolding require_user
  reset_password id new = do
    user ← require_user lib env req "User not found" id
    if ltb (js.length new) 8
        then throw (bad_request "Password must be at least 8 characters")
        else set_password id new

  unfoldable pub delete_passkey : String → String → Handler Auth (Unit {0})
  delete_passkey user_id passkey_id s =
      elim (find_first (λ (k : Passkey). str_eq k.id passkey_id && str_eq k.user_id user_id)
        s.passkeys) [
          | none ↦ throw (not_found "Passkey not found") s
          | some _ ↦ (
            ok tt,
            record s {
              passkeys = delete_many (λ (k : Passkey). str_eq k.id passkey_id) s.passkeys;
            },
          )
        ]
