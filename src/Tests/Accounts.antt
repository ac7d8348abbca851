-- ===== src/Tests/Accounts.antt =====
-- An administrator with a second factor, a viewer, and libraries without cryptography.
use hamyar_ops.Base.{true, false, none, some, [], ◌∷◌, str_eq, ◌<>◌}
use hamyar_ops.Security.Secrets.{Env}
use hamyar_ops.Auth.State.{admin, viewer, User, Session, Passkey, Libraries, Request, Auth}
use hamyar_ops.Auth.Login.{Tokens}
use hamyar_ops.Tests.Values.{list_database, plain_text}

abbrev pub plain_libraries : Libraries
plain_libraries = record {
  bcrypt_compare = λ password hash. str_eq password hash;
  totp_verify = λ now secret token. str_eq token "123456";
  bcrypt_hash = λ salt password. password;
  sha256_hex = λ text. text;
  sign = λ now claims secret. claims.username <> secret;
}

abbrev pub plain_env : Env
plain_env = record {
  node_env = none;
  jwt_access_secret = some "access";
  jwt_refresh_secret = some "refresh";
  refresh_ttl_s = 604800;
}

abbrev pub at_start : Request
at_start = record { now = 10000; new_id = "s1"; salt = ""; ip = none; user_agent = none }

abbrev pub at_end : Request
at_end = record { now = 20000; new_id = "s2"; salt = ""; ip = none; user_agent = none }

abbrev pub alice : User
alice = record {
  id = "u1";
  username = "alice";
  email = "alice@example.org";
  password_hash = "wonder";
  role = admin;
  totp_secret = some "seed";
  totp_enabled = true;
  totp_backup_codes = "spare-1" ∷ "spare-2" ∷ [];
  last_login_at = none;
}

abbrev pub bob : User
bob = record {
  id = "u2";
  username = "bob";
  email = "bob@example.org";
  password_hash = "builder";
  role = viewer;
  totp_secret = none;
  totp_enabled = false;
  totp_backup_codes = [];
  last_login_at = none;
}

abbrev pub alice_tokens : Tokens
alice_tokens = record { access_token = "aliceaccess"; refresh_token = "alicerefresh" }

abbrev pub bob_session : Session
bob_session = record {
  id = "s0";
  user_id = "u2";
  refresh_token_hash = "old";
  ip_address = none;
  user_agent = none;
  expires_at = 100000;
}

abbrev pub bob_key : Passkey
bob_key = record {
  id = "k1";
  user_id = "u2";
  name = "phone";
  credential_id = "c1";
  public_key = "pk";
  counter = 3;
  transports = [];
}

abbrev pub accounts : Auth
accounts = record {
  users = alice ∷ bob ∷ [];
  sessions = bob_session ∷ [];
  passkeys = bob_key ∷ [];
  attempts = λ k. none;
}

-- The account of alice, locked.
abbrev pub locked_accounts : Auth
locked_accounts = record accounts {
  attempts = λ k. some (record { failures = 0; locked_until = 900000; first_failure_at = 0 });
}
