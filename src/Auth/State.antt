-- ===== src/Auth/State.antt =====
-- What auth.service.ts works on: the tables of users, sessions and passkeys, the login throttle,
-- and the libraries that it calls.
use hamyar_ops.Base.{ℕ, String, Bool, Option, List}
use hamyar_ops.Prisma.{Database}
use hamyar_ops.Security.LoginThrottle.{Attempts}

pub data Role : Type 0 where
  admin viewer : Role

pub record User : Type 0 where
  pub id : String
  pub username : String
  pub email : String
  pub password_hash : String
  pub role : Role
  pub totp_secret : Option String
  pub totp_enabled : Bool
  pub totp_backup_codes : List String
  pub last_login_at : Option ℕ

pub record Session : Type 0 where
  pub id : String
  pub user_id : String
  pub refresh_token_hash : String
  pub ip_address : Option String
  pub user_agent : Option String
  pub expires_at : ℕ

pub record Passkey : Type 0 where
  pub id : String
  pub user_id : String
  pub name : String
  pub credential_id : String
  pub public_key : String
  pub counter : ℕ
  pub transports : List String

-- The claims of a token.
pub record Payload : Type 0 where
  pub sub : String
  pub username : String
  pub role : Role

-- bcryptjs, speakeasy, Node's crypto and @nestjs/jwt. A hash depends on the salt drawn for it and on
-- the password; a token depends on its claims, its secret and
-- the second of its issue; a verification of a one-time code on the time.
pub record Libraries : Type 0 where
  pub bcrypt_compare : String → String → Bool
  pub totp_verify : ℕ → Option String → String → Bool
  pub bcrypt_hash : String → String → String
  pub sha256_hex : String → String
  pub sign : ℕ → Payload → String → String

-- The request: its time in milliseconds, and the id that the database gives to a row it creates,
-- and the salt that bcrypt draws.
pub record Request : Type 0 where
  pub now : ℕ
  pub new_id : String
  pub salt : String
  pub ip : Option String
  pub user_agent : Option String

module _ ⦃db : Database⦄ where
  open db use {Table}

  pub record Auth : Type 0 where
    pub users : Table User
    pub sessions : Table Session
    pub passkeys : Table Passkey
    pub attempts : Attempts
